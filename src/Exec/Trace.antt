-- ===== src/Exec/Trace.antt =====
-- Runs with a record of what they wrote: a world paired with the writes so far, oldest first.
use opsgenie_operator.Prelude.{◌≡◌, refl, List, [], ◌∷◌, ◌++◌, Option, none, some}
use opsgenie_operator.Exec.{
  Reply, done, failed, ApiError, remote, Call, Proc, Outcome, ok, err, panicked, continue, ◌>>=◌,
}

abbrev pub Traced : Type 0 → Type 0 → Type 0
Traced W E = W × List E

module _ {W E A : Type 0} where
  -- a call that is not recorded
  abbrev pub quiet : Call W A → Call (Traced W E) A
  quiet c (w, log) = let (a, w') = c w in (a, (w', log))

  -- a call that is recorded as `e`
  abbrev pub noted : E → Call W A → Call (Traced W E) A
  noted e c (w, log) = let (a, w') = c w in (a, (w', log ++ (e ∷ [])))

abbrev pub error_of : {A : Type 0} → Reply A → Option ApiError
error_of (done a) = none
error_of (failed e) = some e

module _ {W A : Type 0} where
  -- a call whose error is recorded, or that it gave none
  abbrev pub judged : Call W (Reply A) → Call (Traced W (Option ApiError)) (Reply A)
  judged c (w, log) = let (r, w') = c w in (r, (w', log ++ (error_of r ∷ [])))

-- The calls before the last gave no error, and the outcome is that of the last: `o`, or its error.
abbrev pub Stops : {A : Type 0} → Outcome A → List (Option ApiError) → Outcome A → Type 0
Stops o [] end = end ≡ o
Stops o (none ∷ log) end = Stops o log end
Stops o (some e ∷ log) end = (log ≡ []) × (end ≡ err (remote e))

abbrev pub first : {E : Type 0} → List E → Option E
first [] = none
first (e ∷ log) = some e

-- The two are the same, but for the record, and the second writes nothing.
abbrev pub Silent : {W E A : Type 0} → Proc W A → Proc (Traced W E) A → Type 0
Silent {W} {E} m m' = (w : W) (log : List E) → m' (w, log) ≡ ((m w).0, ((m w).1, log))

module _ {W E A B : Type 0} where
  pub >>=-Silent :
      (m : Proc W A) (m' : Proc (Traced W E) A) (f : A → Proc W B) (f' : A → Proc (Traced W E) B)
      → Silent m m'
      → ((a : A) → Silent (f a) (f' a))
      → Silent (m >>= f) (m' >>= f')
  >>=-Silent m m' f f' h k w log = rw (h w log) (go (m w).0 (m w).1)
    where
      go :
          (o : Outcome A) (v : W)
          → continue o f' (v, log) ≡ ((continue o f v).0, ((continue o f v).1, log))
      go (ok a) v = k a v log
      go (err e) v = refl
      go panicked v = refl
