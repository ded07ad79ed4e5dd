-- ===== src/Kube.antt =====
-- What the controllers use of Kubernetes: object names, the clock, and the API client of
-- controller-runtime (`client.Client`), which is a parameter.
pub mod Keeps
use opsgenie_operator.Prelude.{String, ℤ, Eq, string_eq}
use opsgenie_operator.Exec.{Call, Reply}

-- `time.Time` as its instant, in nanoseconds from the Unix epoch; `Time.Equal` compares these.
abbrev pub Time : Type 0
Time = ℤ

-- `types.NamespacedName`, `client.ObjectKey`
pub record ObjectKey : Type 0 where
  pub namespace : String
  pub name : String

-- `metav1.ObjectMeta`, as far as it is read
abbrev pub ObjectMeta : Type 0
ObjectMeta = ObjectKey

-- `corev1.LocalObjectReference`
pub record LocalObjectReference : Type 0 where
  pub name : String

-- The client at one kind of object, over an unknown world. `update_status` is
-- `Status().Update(ctx, &cr)`: it answers the object as the server has stored it.
pub record Kube (W Object : Type 0) : Type 0 where
  pub get : ObjectKey → Call W (Reply Object)
  pub update_status : Object → Call W (Reply Object)

ObjectKey-discrete : Discrete ObjectKey
ObjectKey-discrete = hlevel string_eq.dec

instance unfoldable pub key_eq : Eq ObjectKey
unfolding ObjectKey-discrete
key_eq = record { dec = ObjectKey-discrete }
