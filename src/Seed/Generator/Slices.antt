-- ===== src/Seed/Generator/Slices.antt =====
-- Slices that grow at their end, and the buckets of indexes into them.
use test_permission.Base.{
  ℕ, zero, suc, ◌<◌, ◌≡◌, ◌≢◌, ◌⊎◌, inl, inr, refl, sym, subst, some, List, [], ◌∷◌, ◌++◌, length,
  length-append, get_elem?, All, arith,
}
use test_permission.Seed.Generator.{modify, empties}
use test_permission.Seed.Program.Picks.{All-map_mem}
use test_permission.Seed.Generator.Built.{IsBuckets}

module _ {A : Type 0} where
  pub get_elem?-append_left :
      (xs ys : List A) (i : ℕ) {x : A} → get_elem? xs i ≡ some x → get_elem? (xs ++ ys) i ≡ some x
  get_elem?-append_left [] ys i e = cc
  get_elem?-append_left (y ∷ xs) ys zero e = e
  get_elem?-append_left (y ∷ xs) ys (suc i) e = get_elem?-append_left xs ys i e

  pub get_elem?-last : (xs : List A) (y : A) → get_elem? (xs ++ (y ∷ [])) (length xs) ≡ some y
  get_elem?-last [] y = refl
  get_elem?-last (x ∷ xs) y = get_elem?-last xs y

  pub get_elem?-snoc :
      (xs : List A) (y : A) (i : ℕ) {x : A}
      → get_elem? (xs ++ (y ∷ [])) i ≡ some x
      → (get_elem? xs i ≡ some x) ⊎ ((i ≡ length xs) × (some x ≡ some y))
  get_elem?-snoc [] y zero e = inr (refl, cc)
  get_elem?-snoc [] y (suc i) e = cc
  get_elem?-snoc (z ∷ xs) y zero e = inl e
  get_elem?-snoc (z ∷ xs) y (suc i) e = elim (get_elem?-snoc xs y i e) [
    | inl h ↦ inl h
    | inr (h, k) ↦ inr (omega (arith, h), k)
  ]

  pub length-snoc : (xs : List A) (y : A) → length (xs ++ (y ∷ [])) ≡ suc (length xs)
  length-snoc xs y = omega (arith, length-append xs (y ∷ []))

  length-modify : (i : ℕ) (f : A → A) (xs : List A) → length (modify i f xs) ≡ length xs
  unfolding modify
  length-modify i f [] = refl
  length-modify zero f (x ∷ xs) = refl
  length-modify (suc i) f (x ∷ xs) = omega (arith, length-modify i f xs)

  -- An element of the changed list is changed at that index, and as it was at every other.
  get_elem?-modify :
      (i : ℕ) (f : A → A) (xs : List A) (j : ℕ) {y : A}
      → get_elem? (modify i f xs) j ≡ some y
      → (x : A) × (get_elem? xs j ≡ some x) × (((j ≡ i) × (y ≡ f x)) ⊎ ((j ≢ i) × (y ≡ x)))
  unfolding modify
  get_elem?-modify i f [] j e = cc
  get_elem?-modify zero f (x ∷ xs) zero e = (x, refl, inl (refl, cc))
  get_elem?-modify zero f (x ∷ xs) (suc j) {y} e = (y, e, inr (omega arith, refl))
  get_elem?-modify (suc i) f (x ∷ xs) zero e = (x, refl, inr (omega arith, cc))
  get_elem?-modify (suc i) f (x ∷ xs) (suc j) e =
      let (z, at_j, which) = get_elem?-modify i f xs j e in
      (
        z,
        at_j,
        elim which [
          | inl (h, k) ↦ inl (omega (arith, h), k)
          | inr (h, k) ↦ inr (omega (arith, h), k)
        ],
      )

-- The change, seen from the list before it.
pub get_elem?-of_modify :
    {A : Type 0} (i : ℕ) (f : A → A) (xs : List A) (j : ℕ) {x : A}
    → get_elem? xs j ≡ some x
    → ((j ≡ i) × (get_elem? (modify i f xs) j ≡ some (f x)))
      ⊎ ((j ≢ i) × (get_elem? (modify i f xs) j ≡ some x))
unfolding modify
get_elem?-of_modify i f [] j e = cc
get_elem?-of_modify zero f (y ∷ xs) zero e = inl (refl, ground (arith, e))
get_elem?-of_modify zero f (y ∷ xs) (suc j) e = inr (omega arith, e)
get_elem?-of_modify (suc i) f (y ∷ xs) zero e = inr (omega arith, e)
get_elem?-of_modify (suc i) f (y ∷ xs) (suc j) e = elim (get_elem?-of_modify i f xs j e) [
  | inl (h, k) ↦ inl (omega (arith, h), k)
  | inr (h, k) ↦ inr (omega (arith, h), k)
]

pub get_elem?-some :
    {A : Type 0} (xs : List A) (i : ℕ) → i < length xs → (x : A) × (get_elem? xs i ≡ some x)
get_elem?-some [] i b = absurd (omega (arith, b))
get_elem?-some (x ∷ xs) zero b = (x, refl)
get_elem?-some (x ∷ xs) (suc i) b = get_elem?-some xs i (omega (arith, b))

get_elem?-empties :
    {A : Type 0} (n r : ℕ) {ns : List A} → get_elem? (empties {A = A} n) r ≡ some ns → ns ≡ []
unfolding empties
get_elem?-empties zero r e = cc
get_elem?-empties (suc n) zero e = cc
get_elem?-empties (suc n) (suc r) e = get_elem?-empties n r e

length-empties : (n : ℕ) → length (empties {A = ℕ} n) ≡ n
unfolding empties
length-empties zero = refl
length-empties (suc n) = omega (arith, length-empties n)

pub empties-IsBuckets : (n : ℕ) (L : ℕ → ℕ → Type 0) → IsBuckets 0 n L (empties n)
empties-IsBuckets n L = record {
  sized = length-empties n;
  some_in = λ r ns b e. absurd (omega (arith, b));
  labelled = λ r ns e. subst (All (L r)) (sym (get_elem?-empties n r e)) tt;
}

-- A change of one bucket that leaves it with an index, all of them labelled.
module _ (n b filled filled' : ℕ) (L L' : ℕ → ℕ → Type 0) (h : List ℕ → List ℕ)
    (more : (r : ℕ) → r < filled' → (r < filled) ⊎ (r ≡ b)) (kept : (r i : ℕ) → L r i → L' r i)
    (some_left : (ns : List ℕ) → 0 < length (h ns))
    (all_left : (ns : List ℕ) → All (L' b) ns → All (L' b) (h ns)) where
  pub modify-IsBuckets :
      (lists : List (List ℕ))
      → IsBuckets filled n L lists
      → IsBuckets filled' n L' (modify b h lists)
  modify-IsBuckets lists buckets = record {
    sized = omega (arith, length-modify b h lists, buckets.sized);
    some_in = λ r ns inside e.
        let (old, at_r, which) = get_elem?-modify b h lists r e in
        elim which [
          | inl (same, is_new) ↦ subst (λ l. 0 < length l) (sym is_new) (some_left old)
          | inr (other, is_old) ↦ elim (more r inside) [
            | inl in_old ↦
                subst (λ l. 0 < length l) (sym is_old) (buckets.some_in r old in_old at_r)
            | inr same ↦ absurd (other same)
          ]
        ];
    labelled = λ r ns e.
        let (old, at_r, which) = get_elem?-modify b h lists r e in
        let was : All (L' r) old = All-map_mem old (buckets.labelled r old at_r) (kept r) in
        elim which [
          | inl (same, is_new) ↦ subst (All (L' r)) (sym is_new) (
              subst (λ m. All (L' m) (h old)) (sym same)
                (all_left old (subst (λ m. All (L' m) old) same was)))
          | inr (other, is_old) ↦ subst (All (L' r)) (sym is_old) was
        ];
  }
