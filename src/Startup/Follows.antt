-- ===== src/Startup/Follows.antt =====
-- Programs that take given steps in order, up to the first that fails. The steps, and whether they
-- succeeded, are read off the world, which keeps a record of them.
use opsgenie_operator.Prelude.{
  Bool, true, false, ◌≡◌, refl, sym, ap, ◌∙◌, ◌⊎◌, inl, inr, List, [], ◌∷◌, ◌++◌, map,
}
use mathlib.Core.List.{append-nil, append_assoc}
use opsgenie_operator.Exec.{Call, Reply, done, failed}
use opsgenie_operator.Startup.Program.{Program, Ended, returned, exited, return, or_exit, ◌>>=◌}

-- A step that was taken, and whether it succeeded.
pub record Taken (E : Type 0) : Type 0 where
  pub step : E
  pub succeeded : Bool

abbrev pub is_done : {A : Type 0} → Reply A → Bool
is_done (done a) = true
is_done (failed e) = false

module _ {E : Type 0} where
  abbrev pub success : E → Taken E
  success e = record { step = e; succeeded = true }

  abbrev pub failure : E → Taken E
  failure e = record { step = e; succeeded = false }

  -- The steps were taken in order up to one that failed, which is the last, and the only one that did.
  pub data StopsIn : List (Taken E) → List E → Type 0 where
    failed_here : {e : E} {steps : List E} → StopsIn (failure e ∷ []) (e ∷ steps)
    later :
        {e : E} {taken : List (Taken E)} {steps : List E}
        → StopsIn taken steps
        → StopsIn (success e ∷ taken) (e ∷ steps)

module _ {W E : Type 0} (log : W → List (Taken E)) where
  -- Either all the steps are taken and succeed, and `main` returns, or the steps are taken up to
  -- the first that fails, and the status is 1.
  pub record Finished (steps : List E) (w : W) (end : Ended × W) : Type 0 where
    pub taken : List (Taken E)
    pub recorded : log end.1 ≡ log w ++ taken
    pub ended :
        ((end.0 ≡ returned) × (taken ≡ map success steps))
        ⊎ ((end.0 ≡ exited 1) × StopsIn taken steps)

  unfoldable pub Follows : List E → Program W → Type 0
  Follows steps m = (w : W) → Finished steps w (m w)

  pub Follows-return : Follows [] return
  unfolding Follows
  Follows-return w = record {
    taken = [];
    recorded = sym (append-nil (log w));
    ended = inl (refl, refl);
  }

  module _ {A : Type 0} where
    -- A call that is recorded as `e`, with its success.
    pub Follows-step :
        (e : E) (steps : List E) (m : Call W (Reply A)) (k : A → Program W)
        → ((w : W) → log (m w).1 ≡ log w ++ (record { step = e; succeeded = is_done (m w).0 } ∷ []))
        → ((w : W) (a : A) → (m w).0 ≡ done a → Follows steps (k a))
        → Follows (e ∷ steps) (m >>= k)
    unfolding Follows ◌>>=◌
    Follows-step e steps m k noted rest w = go (m w).0 refl
      where
        go : (r : Reply A) → (m w).0 ≡ r → Finished (e ∷ steps) w (or_exit r k (m w).1)
        go (failed x) h = record {
          taken = failure e ∷ [];
          recorded = rw h at (noted w);
          ended = inr (refl, failed_here);
        }
        go (done a) h =
            let f = rest w a h (m w).1 in
            let here : log (m w).1 ≡ log w ++ (success e ∷ []) = rw h at (noted w) in
            record {
              taken = success e ∷ f.taken;
              recorded =
                  f.recorded
                  ∙ ap (λ l. l ++ f.taken) here
                  ∙ append_assoc (log w) (success e ∷ []) f.taken;
              ended = elim f.ended [
                | inl (back, all) ↦ inl (back, ap {B = List (Taken E)} (λ l. success e ∷ l) all)
                | inr (stop, some_of) ↦ inr (stop, later some_of)
              ];
            }

    -- A call that always succeeds and is not recorded.
    pub Follows-quiet :
        (steps : List E) (m : Call W (Reply A)) (k : A → Program W) (a : A)
        → ((w : W) → m w ≡ (done a, w))
        → Follows steps (k a)
        → Follows steps (m >>= k)
    unfolding Follows ◌>>=◌
    Follows-quiet steps m k a quiet rest w = rw (quiet w) (rest w)
