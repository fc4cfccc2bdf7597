-- ===== src/Seed/Generator/Indexed.antt =====
-- A loop over a slice with its indexes, whose invariant speaks of the index.
use test_permission.Base.{
  ℕ, suc, ◌+◌, ◌≡◌, refl, subst, some, List, [], ◌∷◌, length, get_elem?, arith,
}
use test_permission.Seed.Program.{Call, Program, fold_each}
use test_permission.Seed.Program.Laws.{Emits, Emits-bind}
use test_permission.Seed.Generator.{indexed_from}

module _ (P : Call → Type 0) {A State : Type 0} (I : ℕ → State → Type 0) (W : ℕ → A → Type 0)
    (body : ℕ × A → State → Program State)
    (step : (i : ℕ) (x : A) (acc : State)
      → W i x
      → I i acc
      → Emits P (I (suc i)) (body (i, x) acc)) where
  pub Emits-fold_indexed :
      (xs : List A) (start : ℕ) (acc : State)
      → ((j : ℕ) (x : A) → get_elem? xs j ≡ some x → W (start + j) x)
      → I start acc
      → Emits P (I (start + length xs)) (fold_each body (indexed_from start xs) acc)
  unfolding Emits fold_each indexed_from
  Emits-fold_indexed [] start acc w h = subst (λ m. I m acc) (omega arith) h
  Emits-fold_indexed (x ∷ xs) start acc w h =
      subst (λ m. Emits P (I m) (fold_each body (indexed_from start (x ∷ xs)) acc)) (omega arith)
        (Emits-bind P (I (suc start)) _ (body (start, x) acc)
          (fold_each body (indexed_from (suc start) xs))
          (step start x acc (subst (λ m. W m x) (omega arith) (w 0 x refl)) h)
          (λ next k.
            Emits-fold_indexed xs (suc start) next
              (λ j y e. subst (λ m. W m y) (omega arith) (w (suc j) y e)) k))
