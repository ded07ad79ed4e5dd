-- ===== src/Kube/Keeps.antt =====
-- What the API of one kind of object does to an invariant of the world.
use opsgenie_operator.Exec.Keeps.{Keeps, Answers, IfDone}
use opsgenie_operator.Kube.{Kube, ObjectKey}

-- Reads keep the invariant, and so does a status update with an object that satisfies `P`; what
-- such an update answers satisfies `P` too.
pub record KubeKeeps {W Object : Type 0} (I : W → Type 0) (P : Object → Type 0)
    (kube : Kube W Object) : Type 0 where
  pub get : (k : ObjectKey) → Keeps I (kube.get k)
  pub update_status : (c : Object) → P c → Keeps I (kube.update_status c)
  pub update_answer : (c : Object) → P c → Answers (IfDone P) (kube.update_status c)
