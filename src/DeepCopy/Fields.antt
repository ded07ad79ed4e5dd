-- ===== src/DeepCopy/Fields.antt =====
-- A struct is assigned, and then some of its fields are copied one after the other. Two structs are
-- deeply equal if these fields are, and nothing else differs.
use mathlib.Core.Path.{subst}
use opsgenie_operator.Prelude.{◌≡◌, refl, sym, ap, ◌∙◌, length, arith}
use opsgenie_operator.DeepCopy.Memory.{M, pure, ◌>>=◌}
use opsgenie_operator.DeepCopy.Equal.{Equal, IsDeepCopy}
use opsgenie_operator.DeepCopy.Laws.{Extends-trans}

module _ {Object R A : Type 0} (f : R → A) (set : R → A → R) (E : Equal Object A) where
  abbrev pub OneField : Equal Object R
  OneField m x n m' y = E m (f x) n m' (f y) × (y ≡ set x (f y))

  pub copy_one-IsDeepCopy :
      (c : A → M Object A)
      → ((x : R) (a : A) → f (set x a) ≡ a)
      → IsDeepCopy E c
      → IsDeepCopy OneField (λ x. c (f x) >>= λ a. pure (set x a))
  copy_one-IsDeepCopy c back deep = record {
    separate = record {
      kept = λ m x n m' y m'' s e. (deep.separate.kept m (f x) n m' (f y) m'' s e.0, e.1);
      lowered = λ m x k n m' y l e. (deep.separate.lowered m (f x) k n m' (f y) l e.0, e.1);
    };
    extends = λ x m. deep.extends (f x) m;
    equal = λ m₀ m x ext v.
        let (a, m₁) = c (f x) m in
        (
          subst (E m₀ (f x) (length m) m₁) (sym (back x a)) (deep.equal m₀ m (f x) ext v.0),
          ap (set x) (sym (back x a)),
        );
  }

module _ {Object R A B : Type 0} (f : R → A) (g : R → B) (set : R → A → B → R) (E : Equal Object A)
    (F : Equal Object B) where
  abbrev pub TwoFields : Equal Object R
  TwoFields m x n m' y = E m (f x) n m' (f y) × F m (g x) n m' (g y) × (y ≡ set x (f y) (g y))

  pub copy_two-IsDeepCopy :
      (c : A → M Object A) (d : B → M Object B)
      → ((x : R) (a : A) (b : B) → f (set x a b) ≡ a)
      → ((x : R) (a : A) (b : B) → g (set x a b) ≡ b)
      → IsDeepCopy E c
      → IsDeepCopy F d
      → IsDeepCopy TwoFields (λ x. c (f x) >>= λ a. d (g x) >>= λ b. pure (set x a b))
  copy_two-IsDeepCopy c d back_f back_g deep_c deep_d = record {
    separate = record {
      kept = λ m x n m' y m'' s e. (
        deep_c.separate.kept m (f x) n m' (f y) m'' s e.0,
        deep_d.separate.kept m (g x) n m' (g y) m'' s e.1,
        e.2,
      );
      lowered = λ m x k n m' y l e. (
        deep_c.separate.lowered m (f x) k n m' (f y) l e.0,
        deep_d.separate.lowered m (g x) k n m' (g y) l e.1,
        e.2,
      );
    };
    extends =
        λ x m. Extends-trans m _ _ (deep_c.extends (f x) m) (deep_d.extends (g x) (c (f x) m).1);
    equal = λ m₀ m x ext v.
        let (a, m₁) = c (f x) m in
        let (b, m₂) = d (g x) m₁ in
        let grown = deep_c.extends (f x) m in
        let last = deep_d.extends (g x) m₁ in
        let here =
          deep_c.separate.kept m₀ (f x) (length m) m₁ a m₂ (λ i h k. last.same i k)
            (deep_c.equal m₀ m (f x) ext v.0) in
        let there =
          deep_d.separate.lowered m₀ (g x) (length m) (length m₁) m₂ b grown.longer
            (deep_d.equal m₀ m₁ (g x) (Extends-trans m₀ m m₁ ext grown) v.1) in
        (
          subst (E m₀ (f x) (length m) m₂) (sym (back_f x a b)) here,
          subst (F m₀ (g x) (length m) m₂) (sym (back_g x a b)) there,
          ap (λ u. set x u b) (sym (back_f x a b))
              ∙ ap (set x (f (set x a b))) (sym (back_g x a b)),
        );
  }

module _ {Object R A B C : Type 0} (f : R → A) (g : R → B) (h : R → C) (set : R → A → B → C → R)
    (E : Equal Object A) (F : Equal Object B) (G : Equal Object C) where
  abbrev pub ThreeFields : Equal Object R
  ThreeFields m x n m' y =
      E m (f x) n m' (f y)
      × F m (g x) n m' (g y)
      × G m (h x) n m' (h y)
      × (y ≡ set x (f y) (g y) (h y))

  -- What it is for `set` to set the three fields.
  pub record Sets : Type 0 where
    pub first : (x : R) (a : A) (b : B) (c : C) → f (set x a b c) ≡ a
    pub second : (x : R) (a : A) (b : B) (c : C) → g (set x a b c) ≡ b
    pub third : (x : R) (a : A) (b : B) (c : C) → h (set x a b c) ≡ c

  pub copy_three-IsDeepCopy :
      (c : A → M Object A) (d : B → M Object B) (e : C → M Object C)
      → Sets
      → IsDeepCopy E c
      → IsDeepCopy F d
      → IsDeepCopy G e
      → IsDeepCopy ThreeFields
          (λ x. c (f x) >>= λ a. d (g x) >>= λ b. e (h x) >>= λ z. pure (set x a b z))
  copy_three-IsDeepCopy c d e back deep_c deep_d deep_e = record {
    separate = record {
      kept = λ m x n m' y m'' s q. (
        deep_c.separate.kept m (f x) n m' (f y) m'' s q.0,
        deep_d.separate.kept m (g x) n m' (g y) m'' s q.1,
        deep_e.separate.kept m (h x) n m' (h y) m'' s q.2,
        q.3,
      );
      lowered = λ m x k n m' y l q. (
        deep_c.separate.lowered m (f x) k n m' (f y) l q.0,
        deep_d.separate.lowered m (g x) k n m' (g y) l q.1,
        deep_e.separate.lowered m (h x) k n m' (h y) l q.2,
        q.3,
      );
    };
    extends = λ x m.
        let m₁ = (c (f x) m).1 in
        Extends-trans m _ _ (deep_c.extends (f x) m)
          (Extends-trans m₁ _ _ (deep_d.extends (g x) m₁) (deep_e.extends (h x) (d (g x) m₁).1));
    equal = λ m₀ m x ext v.
        let (a, m₁) = c (f x) m in
        let (b, m₂) = d (g x) m₁ in
        let (z, m₃) = e (h x) m₂ in
        let one = deep_c.extends (f x) m in
        let two = deep_d.extends (g x) m₁ in
        let three = deep_e.extends (h x) m₂ in
        let last = Extends-trans m₁ m₂ m₃ two three in
        let ext₁ = Extends-trans m₀ m m₁ ext one in
        let here =
          deep_c.separate.kept m₀ (f x) (length m) m₁ a m₃ (λ i p k. last.same i k)
            (deep_c.equal m₀ m (f x) ext v.0) in
        let there =
          deep_d.separate.kept m₀ (g x) (length m) m₂ b m₃ (λ i p k. three.same i k)
            (deep_d.separate.lowered m₀ (g x) (length m) (length m₁) m₂ b one.longer
              (deep_d.equal m₀ m₁ (g x) ext₁ v.1)) in
        let beyond =
          deep_e.separate.lowered m₀ (h x) (length m) (length m₂) m₃ z
            (omega (arith, one.longer, two.longer))
            (deep_e.equal m₀ m₂ (h x) (Extends-trans m₀ m₁ m₂ ext₁ two) v.2) in
        (
          subst (E m₀ (f x) (length m) m₃) (sym (back.first x a b z)) here,
          subst (F m₀ (g x) (length m) m₃) (sym (back.second x a b z)) there,
          subst (G m₀ (h x) (length m) m₃) (sym (back.third x a b z)) beyond,
          rw (back.first x a b z, back.second x a b z, back.third x a b z) refl,
        );
  }
