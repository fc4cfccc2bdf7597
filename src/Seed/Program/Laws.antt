-- ===== src/Seed/Program/Laws.antt =====
-- What holds of a program of the seed generator whatever numbers its source draws.
use test_permission.Base.{
  Bool, true, false, ℕ, zero, suc, ◌+◌, ◌≤◌, ◌<◌, ◌≡◌, refl, subst, List, [], ◌∷◌, ltb, nat_eq,
  length, any, All, arith,
}
use test_permission.Seed.Program.{
  Call, Program, done, fail, draw, call, ◌>>=◌, at, choose, fold_each, fold_range, for_each,
  for_range, exhausted, draw_distinct, int_n,
}

-- Nothing is said of the result of a loop for its effects.
abbrev pub Done : Unit {0} → Type 0
Done _ = Unit

pub ltb_eq_true : {a b : ℕ} → ltb a b ≡ true → a < b
ltb_eq_true e = ground (arith, e)

ltb_eq_false : {a b : ℕ} → ltb a b ≡ false → a ≤ b → a ≡ b
ltb_eq_false e h = ground (arith, e, h)

-- Every call satisfies `P` and every result `Q`; `IntN` is called on a positive number, and
-- the one failure is to run out of fuel.
module _ (P : Call → Type 0) where
  unfoldable pub Emits : {A : Type 0} → (A → Type 0) → Program A → Type 0
  Emits Q (done a) = Q a
  Emits Q (fail e) = e ≡ exhausted
  Emits Q (draw n k) = (0 < n) × ((i : ℕ) → i < n → Emits Q (k i))
  Emits Q (call c p) = P c × Emits Q p

  module _ {A B : Type 0} where
    pub Emits-bind :
        (Q : A → Type 0) (W : B → Type 0) (p : Program A) (f : A → Program B)
        → Emits Q p
        → ((a : A) → Q a → Emits W (f a))
        → Emits W (p >>= f)
    unfolding Emits
    Emits-bind Q W (done a) f h k = k a h
    Emits-bind Q W (fail e) f h k = h
    Emits-bind Q W (draw n g) f (positive, h) k =
        (positive, λ i b. Emits-bind Q W (g i) f (h i b) k)
    Emits-bind Q W (call c p) f (x, h) k = (x, Emits-bind Q W p f h k)

  pub Emits-elim :
      {A : Type 0} (Q : A → Type 0) (b : Bool) (p q : Program A)
      → (b ≡ true → Emits Q p)
      → (b ≡ false → Emits Q q)
      → Emits Q (elim b [ true ↦ p | false ↦ q ])
  Emits-elim Q true p q h k = h refl
  Emits-elim Q false p q h k = k refl

  pub Emits-int_n : (n : ℕ) → 0 < n → Emits (λ i. i < n) (int_n n)
  unfolding Emits
  Emits-int_n n h = (h, λ i b. b)

  module _ {A : Type 0} where
    pub Emits-at :
        (Q : A → Type 0) (xs : List A) (i : ℕ) → All Q xs → i < length xs → Emits Q (at xs i)
    unfolding Emits at
    Emits-at Q [] i h b = absurd (omega (arith, b))
    Emits-at Q (x ∷ xs) zero (q, h) b = q
    Emits-at Q (x ∷ xs) (suc i) (q, h) b = Emits-at Q xs i h (omega (arith, b))

    pub Emits-choose :
        (Q : A → Type 0) (xs : List A) → All Q xs → 0 < length xs → Emits Q (choose xs)
    unfolding Emits choose
    Emits-choose Q xs h b = (b, λ i c. Emits-at Q xs i h c)

  module _ {A State : Type 0} {I : State → Type 0} where
    pub Emits-fold_each :
        {W : A → Type 0} (body : A → State → Program State)
        → ((x : A) (acc : State) → W x → I acc → Emits I (body x acc))
        → (xs : List A) (acc : State) → All W xs
        → I acc
        → Emits I (fold_each body xs acc)
    unfolding Emits fold_each
    Emits-fold_each body step [] acc w h = h
    Emits-fold_each body step (x ∷ xs) acc (w, ws) h =
        Emits-bind _ _ (body x acc) (fold_each body xs) (step x acc w h)
          (λ next k. Emits-fold_each body step xs next ws k)

  module _ {State : Type 0} {I : ℕ → State → Type 0} where
    pub Emits-fold_range :
        (body : ℕ → State → Program State) (start count : ℕ)
        → ((i : ℕ) (acc : State)
            → start ≤ i
            → i < start + count
            → I i acc
            → Emits (I (suc i)) (body i acc))
        → (acc : State) → I start acc
        → Emits (I (start + count)) (fold_range body start count acc)
    unfolding Emits fold_range
    Emits-fold_range body start zero step acc h = subst (λ m. I m acc) (omega arith) h
    Emits-fold_range body start (suc count) step acc h =
        subst (λ m. Emits (I m) (fold_range body start (suc count) acc)) (omega arith)
          (Emits-bind _ _ (body start acc) (fold_range body (suc start) count)
            (step start acc (omega arith) (omega arith) h)
            (λ next k.
              Emits-fold_range body (suc start) count
                (λ i a low high. step i a (omega (arith, low)) (omega (arith, high))) next k))

  pub Emits-for_each :
      {A : Type 0} {W : A → Type 0} (body : A → Program (Unit {0}))
      → ((x : A) → W x → Emits Done (body x))
      → (xs : List A) → All W xs
      → Emits Done (for_each body xs)
  unfolding for_each
  Emits-for_each body step xs ws =
      Emits-fold_each {I = λ _. Unit} (λ x _. body x) (λ x _ w _. step x w) xs tt ws tt

  pub Emits-for_range :
      (body : ℕ → Program (Unit {0})) (count : ℕ)
      → ((i : ℕ) → i < count → Emits Done (body i))
      → Emits Done (for_range body count)
  unfolding for_range
  Emits-for_range body count step =
      Emits-fold_range {I = λ _ _. Unit} (λ i _. body i) 0 count
        (λ i _ _ b _. step i (omega (arith, b))) tt tt

  -- The loop draws distinct numbers until it has `n` of them, each one acceptable.
  module _ {State : Type 0} {W : ℕ → Type 0} {I : List ℕ → State → Type 0} (pick : Program ℕ)
      (body : ℕ → State → Program State) (n : ℕ) (picks : Emits W pick)
      (step : (i : ℕ) (seen : List ℕ) (acc : State)
        → W i
        → any (nat_eq i) seen ≡ false
        → I seen acc
        → Emits (I (i ∷ seen)) (body i acc)) where
    pub Emits-draw_distinct :
        (fuel : ℕ) (seen : List ℕ) (acc : State)
        → length seen ≤ n
        → I seen acc
        → Emits
            (λ end. (all_seen : List ℕ) × (length all_seen ≡ n) × I all_seen end)
            (draw_distinct pick body n fuel seen acc)
    unfolding Emits draw_distinct
    Emits-draw_distinct zero seen acc b h =
        Emits-elim _ (ltb (length seen) n) (fail exhausted) (done acc) (λ e. refl)
          (λ e. (seen, ltb_eq_false e b, h))
    Emits-draw_distinct (suc fuel) seen acc b h =
        Emits-elim _ (ltb (length seen) n) _ (done acc)
          (λ short. Emits-bind _ _ pick _ picks (λ i w.
            Emits-elim _ (any (nat_eq i) seen) _ _ (λ e. Emits-draw_distinct fuel seen acc b h)
              (λ e.
                Emits-bind _ _ (body i acc) _ (step i seen acc w e h)
                  (λ next k. Emits-draw_distinct fuel (i ∷ seen) next (ltb_eq_true short) k))))
          (λ e. (seen, ltb_eq_false e b, h))

  pub Emits-map :
      {A : Type 0} (Q W : A → Type 0) (p : Program A)
      → Emits Q p
      → ((a : A) → Q a → W a)
      → Emits W p
  unfolding Emits
  Emits-map Q W (done a) h f = f a h
  Emits-map Q W (fail e) h f = h
  Emits-map Q W (draw n k) (positive, h) f = (positive, λ i b. Emits-map Q W (k i) (h i b) f)
  Emits-map Q W (call c p) (x, h) f = (x, Emits-map Q W p h f)

  -- The loop where only the calls of the body count.
  pub Emits-draw_each :
      (W : ℕ → Type 0) (pick : Program ℕ) (body : ℕ → Program (Unit {0})) (n fuel : ℕ)
      → Emits W pick
      → ((i : ℕ) → W i → Emits Done (body i))
      → Emits Done (draw_distinct pick (λ i _. body i) n fuel [] tt)
  Emits-draw_each W pick body n fuel picks step =
      Emits-map _ Done (draw_distinct pick (λ i _. body i) n fuel [] tt)
        (Emits-draw_distinct {W = W} {I = λ _ _. Unit} pick (λ i _. body i) n picks
          (λ i seen acc w new h. step i w) fuel [] tt (omega arith) tt)
        (λ a h. tt)
