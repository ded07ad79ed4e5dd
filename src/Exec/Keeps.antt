-- ===== src/Exec/Keeps.antt =====
-- Invariants of the world under calls and reconciliations.
use opsgenie_operator.Exec.{Reply, done, failed}

-- Whatever `m` answers, it leaves a world in which `I` holds, if it did before.
abbrev pub Keeps : {W A : Type 0} → (W → Type 0) → (W → A × W) → Type 0
Keeps {W} I m = (w : W) → I w → I (m w).1

-- What `m` answers satisfies `P`.
abbrev pub Answers : {W A : Type 0} → (A → Type 0) → (W → A × W) → Type 0
Answers {W} P m = (w : W) → P (m w).0

-- The value of a reply satisfies `P`.
abbrev pub IfDone : {A : Type 0} → (A → Type 0) → Reply A → Type 0
IfDone P (done a) = P a
IfDone P (failed e) = Unit

-- There is a value.
abbrev pub IsDone : {A : Type 0} → Reply A → Type 0
IsDone (done a) = Unit
IsDone (failed e) = ⊥
