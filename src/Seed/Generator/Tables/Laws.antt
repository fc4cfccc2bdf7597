-- ===== src/Seed/Generator/Tables/Laws.antt =====
-- The divisions of every organization, the roles of every root and the personas, however they are drawn.
use test_permission.Base.{
  Bool, true, false, ℕ, suc, ◌<◌, ◌≡◌, ◌⊎◌, inl, sym, subst, String, List, [], ◌∷◌, ◌++◌, length,
  All-append, arith,
}
use test_permission.Seed.Types.{Scale, Org}
use test_permission.Seed.Program.{Call}
use test_permission.Seed.Program.Laws.{Emits, Emits-fold_range}
use test_permission.Seed.Program.Picks.{Emits-pick_then}
use test_permission.Seed.Generator.{push_at, default_divisions, custom_divisions}
use test_permission.Seed.Generator.Indexed.{Emits-fold_indexed}
use test_permission.Seed.Generator.Slices.{length-snoc, empties-IsBuckets, modify-IsBuckets}
use test_permission.Seed.Generator.Built.{IsBuckets}
use test_permission.Seed.Generator.Tables.{
  Divisions, add_division, add_divisions, custom_division, divide, build_divisions,
}

-- `n` buckets of indexes below `bound`, with one at least in each of the first `filled`.
abbrev pub Below : ℕ → ℕ → ℕ → List (List ℕ) → Type 0
Below filled n bound lists = IsBuckets filled n (λ _ i. i < bound) lists

-- The next index goes into some bucket.
pub push-Below :
    (filled filled' n b bound : ℕ) (lists : List (List ℕ))
    → ((r : ℕ) → r < filled' → (r < filled) ⊎ (r ≡ b))
    → Below filled n bound lists
    → Below filled' n (suc bound) (push_at b bound lists)
push-Below filled filled' n b bound lists more buckets =
    modify-IsBuckets n b filled filled' _ _ (λ ns. ns ++ (bound ∷ [])) more
      (λ r i h. omega (arith, h)) (λ ns. omega (arith, length-snoc ns bound))
      (λ ns all. All-append _ ns (bound ∷ []) all (omega arith, tt)) lists buckets

abbrev pub IsDivided : ℕ → ℕ → Divisions → Type 0
IsDivided filled n d = Below filled n (length d.divisions) d.divs_by_org

module _ (P : Call → Type 0) (padded : ℕ → ℕ → String) (s : Scale) where
  add_division-IsDivided :
      (filled filled' n oi : ℕ) (o : Org) (is_default : Bool) (key : String) (d : Divisions)
      → ((r : ℕ) → r < filled' → (r < filled) ⊎ (r ≡ oi))
      → IsDivided filled n d
      → IsDivided filled' n (add_division padded oi o is_default key d)
  add_division-IsDivided filled filled' n oi o is_default key d more h =
      subst (λ m. Below filled' n m (push_at oi (length d.divisions) d.divs_by_org))
        (sym (length-snoc d.divisions _))
        (push-Below filled filled' n oi (length d.divisions) d.divs_by_org more h)

  add_divisions-IsDivided :
      (filled n oi : ℕ) (o : Org) (keys : List String) (d : Divisions)
      → IsDivided filled n d
      → IsDivided filled n (add_divisions padded oi o keys d)
  unfolding add_divisions
  add_divisions-IsDivided filled n oi o [] d h = h
  add_divisions-IsDivided filled n oi o (key ∷ keys) d h =
      add_divisions-IsDivided filled n oi o keys _
        (add_division-IsDivided filled filled n oi o true key d (λ r b. inl b) h)

  -- The first of the default divisions is the first of the organization.
  default_divisions-IsDivided :
      (n i : ℕ) (o : Org) (d : Divisions)
      → IsDivided i n d
      → IsDivided (suc i) n (add_divisions padded i o default_divisions d)
  unfolding add_divisions
  default_divisions-IsDivided n i o d h =
      add_divisions-IsDivided (suc i) n i o ("procurement" ∷ "hr" ∷ "sales" ∷ "operations" ∷ [])
        (add_division padded i o true "finance" d)
        (add_division-IsDivided i (suc i) n i o true "finance" d (λ r b. ground (arith, b)) h)

  divide-Emits :
      (n i : ℕ) (o : Org) (d : Divisions)
      → IsDivided i n d
      → Emits P (IsDivided (suc i) n) (divide padded s (i, o) d)
  unfolding Emits divide custom_division
  divide-Emits n i o d h = (
    omega arith,
    λ m _.
        Emits-fold_range P {I = λ _. IsDivided (suc i) n} (custom_division padded i o) 0 m
          (λ k acc _ _ h.
            Emits-pick_then P _ custom_divisions _ (omega arith) (λ key _.
              add_division-IsDivided (suc i) (suc i) n i o false key acc (λ r b. inl b) h))
          (add_divisions padded i o default_divisions d) (default_divisions-IsDivided n i o d h),
  )

  pub build_divisions-Emits :
      (orgs : List Org)
      → Emits P (IsDivided (length orgs) (length orgs)) (build_divisions padded s orgs)
  unfolding build_divisions
  build_divisions-Emits orgs =
      subst (λ m. Emits P (IsDivided m (length orgs)) (build_divisions padded s orgs)) (omega arith)
        (Emits-fold_indexed P (λ i. IsDivided i (length orgs)) (λ _ _. Unit) (divide padded s)
          (λ i o d _ h. divide-Emits (length orgs) i o d h) orgs 0 _ (λ _ _ _. tt)
          (empties-IsBuckets (length orgs) _))
