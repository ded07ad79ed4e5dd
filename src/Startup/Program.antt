-- ===== src/Startup/Program.antt =====
-- A program that exits: a world is passed along, and a call that fails ends the program with a
-- message and `os.Exit(1)`.
use opsgenie_operator.Prelude.{ℕ}
use opsgenie_operator.Exec.{Call, Reply, done, failed}

-- `returned` is a return from `main`, whose status is 0.
pub data Ended : Type 0 where
  returned : Ended
  exited : ℕ → Ended

abbrev pub status : Ended → ℕ
status returned = 0
status (exited n) = n

abbrev pub Program : Type 0 → Type 0
Program W = W → Ended × W

module _ {W : Type 0} where
  -- `os.Exit(n)`
  abbrev pub exit : ℕ → Program W
  exit n w = (exited n, w)

  abbrev pub return : Program W
  return w = (returned, w)

module _ {W A : Type 0} where
  abbrev pub or_exit : Reply A → (A → Program W) → Program W
  or_exit (done a) k w = k a w
  or_exit (failed e) k w = (exited 1, w)

  -- `if err != nil { …; os.Exit(1) }` behind a call
  infixl 5 ◌>>=◌
  unfoldable pub ◌>>=◌ : Call W (Reply A) → (A → Program W) → Program W
  ◌>>=◌ m k w = let (r, w') = m w in or_exit r k w'

  -- a call that gives no error
  abbrev pub always : Call W A → Call W (Reply A)
  always m w = let (a, w') = m w in (done a, w')

module _ {W : Type 0} where
  infixl 5 ◌>>◌
  abbrev pub ◌>>◌ : {A : Type 0} → Call W (Reply A) → Program W → Program W
  m >> k = m >>= λ _. k
