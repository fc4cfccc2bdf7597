-- ===== src/Seed/Program/Running/Progress.antt =====
-- When the loop that draws distinct numbers ends within its fuel, and with what calls.
use test_permission.Base.{
  true, false, ℕ, zero, suc, ◌+◌, ◌<◌, ◌≤◌, ◌≡◌, refl, ap, ◌∙◌, List, [], ◌∷◌, ◌++◌, ltb, nat_eq,
  length, any, All, Bool-cases, inl, inr, arith,
}
use test_permission.Base.Fallible.{Fallible, ok, err}
use test_permission.Seed.Program.{
  Call, Program, done, fail, draw, call, ◌>>=◌, int_n, draw_distinct,
}
use test_permission.Seed.Program.Running.{Random, InRange, stream}

-- A program goes on from where the one before it ended.
module _ (R : Random) {A B : Type 0} (f : A → Program B) where
  unfoldable go_on : List Call → Fallible (A × R.State) → List Call × Fallible (B × R.State)
  go_on cs (ok (a, rest)) = (cs ++ (stream R (f a) rest).0, (stream R (f a) rest).1)
  go_on cs (err e) = (cs, err e)

  go_on-cons :
      (c : Call) (cs : List Call) (end : Fallible (A × R.State))
      → (c ∷ (go_on cs end).0, (go_on cs end).1) ≡ go_on (c ∷ cs) end
  unfolding go_on
  go_on-cons c cs (ok (a, rest)) = refl
  go_on-cons c cs (err e) = refl

  stream-bind :
      (p : Program A) (s : R.State) → stream R (p >>= f) s ≡ go_on (stream R p s).0 (stream R p s).1
  unfolding stream go_on
  stream-bind (done a) s = refl
  stream-bind (fail e) s = refl
  stream-bind (draw zero k) s = refl
  stream-bind (draw (suc n) k) s = stream-bind (k (R.int_n (suc n) s).0) (R.int_n (suc n) s).1
  stream-bind (call c p) s =
      ap (λ r. (c ∷ r.0, r.1)) (stream-bind p s) ∙ go_on-cons c (stream R p s).0 (stream R p s).1

-- One call, and then another program.
after_call :
    (R : Random) {c : Call} {cs : List Call} {end : Fallible (Unit {0} × R.State)}
    (p q : Program (Unit {0})) (s : R.State)
    → stream R p s ≡ (c ∷ [], ok (tt, s))
    → stream R q s ≡ (cs, end)
    → stream R (p >>= λ _. q) s ≡ (c ∷ cs, end)
unfolding go_on
after_call R p q s one same = stream-bind R (λ _. q) p s ∙ rw (one, same)

-- The first `k` numbers below `m` that a source gives, and how many of a list of numbers are
-- different from each other and from those seen.
module _ (R : Random) where
  unfoldable pub drawn : ℕ → ℕ → R.State → List ℕ
  drawn m zero s = []
  drawn m (suc k) s = let (i, rest) = R.int_n m s in i ∷ drawn m k rest

unfoldable pub fresh : List ℕ → List ℕ → ℕ
fresh seen [] = 0
fresh seen (x ∷ xs) = elim (any (nat_eq x) seen) [
  | true ↦ fresh seen xs
  | false ↦ suc (fresh (x ∷ seen) xs)
]

-- Each number is different from those before it and from those seen.
abbrev pub AllNew : List ℕ → List ℕ → Type 0
AllNew seen [] = Unit
AllNew seen (i ∷ is) = (any (nat_eq i) seen ≡ false) × AllNew (i ∷ seen) is

-- One call for each number.
abbrev pub MadeFor : (ℕ → Call → Type 0) → List ℕ → List Call → Type 0
MadeFor C [] [] = Unit
MadeFor C [] (c ∷ cs) = ⊥
MadeFor C (i ∷ is) [] = ⊥
MadeFor C (i ∷ is) (c ∷ cs) = C i c × MadeFor C is cs

module _ (R : Random) (in_range : InRange R) (m n : ℕ) (body : ℕ → Program (Unit {0}))
    (C : ℕ → Call → Type 0)
    (one_call : (i : ℕ) (s : R.State)
      → i < suc m
      → (c : Call) × C i c × (stream R (body i) s ≡ (c ∷ [], ok (tt, s)))) where
  -- The loop ends, with a call for each of the numbers that it still had to draw.
  abbrev pub Completes : List ℕ → Program (Unit {0}) → R.State → Type 0
  Completes seen p s =
      (numbers : List ℕ) × (calls : List Call) × (rest : R.State) × (stream R p s
        ≡ (calls, ok (tt, rest)))
      × (length numbers + length seen ≡ n)
      × AllNew seen numbers
      × All (λ i. i < suc m) numbers
      × MadeFor C numbers calls

  abbrev loop : ℕ → List ℕ → Program (Unit {0})
  loop fuel seen = draw_distinct (int_n (suc m)) (λ i _. body i) n fuel seen tt

  loop-full : (fuel : ℕ) (seen : List ℕ) → ltb (length seen) n ≡ false → loop fuel seen ≡ done tt
  unfolding draw_distinct
  loop-full zero seen e = rw (draw_distinct, e)
  loop-full (suc fuel) seen e = rw (draw_distinct, e)

  loop-short :
      (fuel : ℕ) (seen : List ℕ) (s : R.State)
      → ltb (length seen) n ≡ true
      → stream R (loop (suc fuel) seen) s
        ≡ stream R
            (elim (any (nat_eq (R.int_n (suc m) s).0) seen) [
              | true ↦ loop fuel seen
              | false ↦ body (R.int_n (suc m) s).0 >>= λ _. loop fuel ((R.int_n (suc m) s).0 ∷ seen)
            ])
            (R.int_n (suc m) s).1
  unfolding draw_distinct stream
  loop-short fuel seen s e = rw (draw_distinct, e)

  full-Completes :
      (fuel : ℕ) (seen : List ℕ) (s : R.State)
      → length seen ≤ n
      → ltb (length seen) n ≡ false
      → Completes seen (loop fuel seen) s
  unfolding stream
  full-Completes fuel seen s low full = (
    [],
    [],
    s,
    ap (λ p. stream R p s) (loop-full fuel seen full),
    ground (arith, full, low),
    tt,
    tt,
    tt,
  )

  pub draw_distinct-Completes :
      (fuel : ℕ) (seen : List ℕ) (s : R.State)
      → length seen ≤ n
      → n ≤ length seen + fresh seen (drawn R (suc m) fuel s)
      → Completes seen (loop fuel seen) s
  unfolding fresh drawn
  draw_distinct-Completes zero seen s low high = elim (Bool-cases (ltb (length seen) n)) [
    | inl short ↦ absurd (ground (arith, short, high))
    | inr full ↦ full-Completes zero seen s low full
  ]
  draw_distinct-Completes (suc fuel) seen s low high =
      let (i, next) = R.int_n (suc m) s in
      elim (Bool-cases (ltb (length seen) n)) [
        | inl short ↦ elim (Bool-cases (any (nat_eq i) seen)) [
          | inl old ↦
              let (numbers, calls, rest, same, count, new, small, made) =
                draw_distinct-Completes fuel seen next low (rw (fresh, old) at high) in
              (
                numbers,
                calls,
                rest,
                loop-short fuel seen s short ∙ rw old same,
                count,
                new,
                small,
                made,
              )
          | inr is_new ↦
              let more : n ≤ length seen + suc (fresh (i ∷ seen) (drawn R (suc m) fuel next)) =
                (rw (fresh, is_new) at high) in
              let inside : i < suc m = in_range (suc m) s (omega arith) in
              let (c, is_made, one) = one_call i next inside in
              let (numbers, calls, rest, same, count, new, small, made) =
                draw_distinct-Completes fuel (i ∷ seen) next (ground (arith, short))
                  (omega (arith, more)) in
              (
                i ∷ numbers,
                c ∷ calls,
                rest,
                loop-short fuel seen s short
                    ∙ rw is_new (after_call R (body i) (loop fuel (i ∷ seen)) next one same),
                omega (arith, count),
                (is_new, new),
                (inside, small),
                (is_made, made),
              )
        ]
        | inr full ↦ full-Completes (suc fuel) seen s low full
      ]
