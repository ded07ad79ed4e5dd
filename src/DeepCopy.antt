-- ===== src/DeepCopy.antt =====
-- api/v1beta1/zz_generated.deepcopy.go, over a memory that is a list of objects: Memory has what the
-- methods do with slices, pointers and maps, Equal says what a deep copy is, and Laws, Copies,
-- Loop, Elements, Flat, Maps and Fields are about the copies of such values. Types has the structs,
-- Objects the arrays of these, Arrays, PartArrays and KindArrays how they are found there. Methods
-- has the methods, Library what they call, Documented what is known of that; Deep and Isolation are
-- about the methods. Values and Views are what a reader sees, ViewLaws and Refinement relate the
-- copies to it. Fixture has a library for Tests.
pub mod Memory
pub mod Equal
pub mod Laws
pub mod Copies
pub mod Loop
pub mod Elements
pub mod Flat
pub mod Maps
pub mod Fields
pub mod Types
pub mod Objects
pub mod Arrays
pub mod PartArrays
pub mod KindArrays
pub mod Library
pub mod Documented
pub mod Methods
pub mod Deep
pub mod Isolation
pub mod Values
pub mod ViewLaws
pub mod Refinement
pub mod Views
pub mod Fixture
mod Tests
