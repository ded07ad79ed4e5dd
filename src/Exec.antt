-- ===== src/Exec.antt =====
-- Errors and control flow of the controllers in internal/controller.
-- A call of another program (the Kubernetes API, Opsgenie, the clock) is a function from the world
-- to a reply and the next world, so that the world may also change for reasons of its own.
-- A reconciler is a `Proc`: what it did before an early return stays done, so the world comes back
-- beside an error too. Every return with an error in the source returns an empty `ctrl.Result`, so
-- `err e` is the Go result `(ctrl.Result{}, e)`. A nil dereference is `panicked`.
pub mod Laws
pub mod Fallible
pub mod Keeps
pub mod Trace
use opsgenie_operator.Prelude.{String, Bool, ℤ, ℕ, if◌then◌else◌}

-- An error that a client library returns, and whether `client.IgnoreNotFound` drops it.
pub record ApiError : Type 0 where
  pub message : String
  pub not_found : Bool

pub data Reply (A : Type 0) : Type 0 where
  done : A → Reply A
  failed : ApiError → Reply A

-- The errors that the controllers return: a library's, or one made by `errors.New`/`fmt.Errorf`.
pub data Error : Type 0 where
  remote : ApiError → Error
  team_unspecified recipient_unspecified service_ref_unspecified : Error
  participant_unnamed user_unnamed restriction_type_empty : Error
  invalid_start_date no_participants unsupported_participant : String → Error
  invalid_day : ℤ → Error

pub data Outcome (A : Type 0) : Type 0 where
  ok : A → Outcome A
  err : Error → Outcome A
  panicked : Outcome A

-- `ctrl.Result`: seconds until the next reconciliation, 0 for none.
pub record Result : Type 0 where
  pub requeue_after : ℕ

abbrev pub no_requeue : Result
no_requeue = record { requeue_after = 0 }

abbrev pub five_minutes : Result
five_minutes = record { requeue_after = 300 }

abbrev pub one_hour : Result
one_hour = record { requeue_after = 3600 }

abbrev pub Call : Type 0 → Type 0 → Type 0
Call W A = W → A × W

abbrev pub Proc : Type 0 → Type 0 → Type 0
Proc W A = W → Outcome A × W

abbrev pub of_reply : {A : Type 0} → Reply A → Outcome A
of_reply (done a) = ok a
of_reply (failed e) = err (remote e)

module _ {W A : Type 0} where
  abbrev pub pure : A → Proc W A
  pure a w = (ok a, w)

  abbrev pub raise : Error → Proc W A
  raise e w = (err e, w)

  abbrev pub lift : Outcome A → Proc W A
  lift o w = (o, w)

  -- a function or a call whose error the caller inspects
  abbrev pub inspect : Proc W A → Proc W (Outcome A)
  inspect m w = let (o, w') = m w in (ok o, w')

  abbrev pub attempt : Call W A → Proc W A
  attempt m w = let (a, w') = m w in (ok a, w')

  -- a call whose error the caller returns
  abbrev pub call : Call W (Reply A) → Proc W A
  call m w = let (r, w') = m w in (of_reply r, w')

module _ {W A B : Type 0} where
  abbrev pub continue : Outcome A → (A → Proc W B) → Proc W B
  continue (ok a) f w = f a w
  continue (err e) f w = (err e, w)
  continue panicked f w = (panicked, w)

  infixl 5 ◌>>=◌ ◌>>◌
  abbrev pub ◌>>=◌ : Proc W A → (A → Proc W B) → Proc W B
  ◌>>=◌ m f w = let (o, w') = m w in continue o f w'

  abbrev pub ◌>>◌ : Proc W A → Proc W B → Proc W B
  m >> n = m >>= λ _. n

-- `return ctrl.Result{}, client.IgnoreNotFound(err)`
abbrev pub ignore_not_found : {W : Type 0} → ApiError → Proc W Result
ignore_not_found e = if e.not_found then pure no_requeue else raise (remote e)
