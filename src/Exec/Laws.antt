-- ===== src/Exec/Laws.antt =====
-- Inversion of a run that returned a value, and the classification of results.
use opsgenie_operator.Prelude.{
  ◌≡◌, refl, sym, ap, ◌⊎◌, inl, inr, Bool, true, false, if◌then◌else◌, arith,
}
use opsgenie_operator.Exec.{
  Call, Reply, done, failed, Outcome, ok, err, panicked, Proc, pure, call, of_reply, continue,
  ◌>>=◌,
}

module _ {W A B : Type 0} where
  pub >>=-eq-ok :
      (m : Proc W A) (f : A → Proc W B) {w w' : W} {b : B}
      → (m >>= f) w ≡ (ok b, w')
      → (a : A) × (v : W) × (m w ≡ (ok a, v)) × (f a v ≡ (ok b, w'))
  >>=-eq-ok m f {w} {w'} {b} h = go (m w) refl h
    where
      go :
          (r : Outcome A × W)
          → m w ≡ r
          → continue r.0 f r.1 ≡ (ok b, w')
          → (a : A) × (v : W) × (m w ≡ (ok a, v)) × (f a v ≡ (ok b, w'))
      go (ok a, v) e h = (a, v, e, h)
      go (err x, v) e h = cc
      go (panicked, v) e h = cc

module _ {W A : Type 0} where
  pub call-eq-ok :
      (m : Call W (Reply A)) {w w' : W} {a : A} → call m w ≡ (ok a, w') → m w ≡ (done a, w')
  call-eq-ok m {w} {w'} {a} h = go (m w) refl h
    where
      go :
          (r : Reply A × W)
          → m w ≡ r
          → ◌≡◌ {A = Outcome A × W} (of_reply r.0, r.1) (ok a, w')
          → m w ≡ (done a, w')
      go (done x, v) e h = ground arith
      go (failed x, v) e h = cc

module _ {W A B : Type 0} where
  pub call-bind-eq-ok :
      (m : Call W (Reply A)) (f : A → Proc W B) {w w' : W} {b : B}
      → (call m >>= f) w ≡ (ok b, w')
      → (a : A) × (v : W) × (m w ≡ (done a, v)) × (f a v ≡ (ok b, w'))
  call-bind-eq-ok m f h =
      let (a, v, called, rest) = >>=-eq-ok (call m) f h in (a, v, call-eq-ok m called, rest)

module _ {W A : Type 0} where
  -- A step that is skipped unless a test passes.
  pub when-eq-ok :
      (test : Bool) (m : Proc W A) (a : A) {w w' : W} {b : A}
      → (if test then m else pure a) w ≡ (ok b, w')
      → ((test ≡ true) × (m w ≡ (ok b, w'))) ⊎ ((test ≡ false) × (b ≡ a) × (w' ≡ w))
  when-eq-ok true m a h = inl (refl, h)
  when-eq-ok false m a h = inr (refl, ground arith, ap (λ r. r.1) (sym h))

module _ {W A B C : Type 0} where
  -- The same inversion, for a proof that goes on with the parts.
  pub on_ok :
      (m : Proc W A) (f : A → Proc W B) {w w' : W} {b : B}
      → (m >>= f) w ≡ (ok b, w')
      → ((a : A) (v : W) → m w ≡ (ok a, v) → f a v ≡ (ok b, w') → C)
      → C
  on_ok m f h k = let (a, v, first, rest) = >>=-eq-ok m f h in k a v first rest

module _ {W A B C : Type 0} where
  pub >>=-assoc :
      (m : Proc W A) (f : A → Proc W B) (g : B → Proc W C) (w : W)
      → ((m >>= f) >>= g) w ≡ (m >>= λ a. f a >>= g) w
  >>=-assoc m f g w = go (m w).0
    where
      go :
          (o : Outcome A)
          → continue (continue o f (m w).1).0 g (continue o f (m w).1).1
            ≡ continue o (λ a. f a >>= g) (m w).1
      go (ok a) = refl
      go (err e) = refl
      go panicked = refl
