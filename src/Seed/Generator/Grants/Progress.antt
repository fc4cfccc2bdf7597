-- ===== src/Seed/Generator/Grants/Progress.antt =====
-- When the grants of a role are all drawn, and what they are.
use test_permission.Base.{
  ℕ, suc, ◌+◌, ◌-◌, ◌<◌, ◌≤◌, ◌≡◌, refl, sym, subst, List, [], ◌∷◌, length, get_elem?, All, some,
  arith,
}
use test_permission.Base.Fallible.{ok}
use test_permission.Seed.Types.{Scale, Role, RegistryResource, Fact}
use test_permission.Seed.Program.{Call, accept, int_n, draw_distinct}
use test_permission.Seed.Program.Running.{Random, InRange, stream}
use test_permission.Seed.Program.Running.Progress.{
  drawn, fresh, AllNew, MadeFor, draw_distinct-Completes,
}
use test_permission.Seed.Generator.{Generator}
use test_permission.Seed.Generator.Registry.Laws.{get_elem?-of_lt, at-of_get_elem?}
use test_permission.Seed.Generator.Grants.{grant, grant_resources}

-- The call grants the role the resource that stands at an index of the registry.
abbrev pub GrantsAt : Generator → Role → ℕ → Call → Type 0
GrantsAt g role i c =
    (res : RegistryResource) × (get_elem? g.resources i ≡ some res)
    × (c
        ≡ accept (
            Fact.role_grant (record {
              role_id = role.id;
              resource_type = res.kind;
              resource_id = res.id;
              action = res.action;
            })))

module _ (R : Random) (in_range : InRange R) (fuel : ℕ) (g : Generator) (role : Role) where
  one_grant :
      (i : ℕ) (s : R.State)
      → i < length g.resources
      → (c : Call) × GrantsAt g role i c × (stream R (grant g role i) s ≡ (c ∷ [], ok (tt, s)))
  unfolding grant stream
  one_grant i s b =
      let (res, found) = get_elem?-of_lt g.resources i b in
      (_, (res, found, refl), rw (at-of_get_elem? g.resources i found))

  -- All the grants of a role, by a run that ends.
  abbrev pub AllGranted : ℕ → R.State → Type 0
  AllGranted count s =
      (numbers : List ℕ) × (calls : List Call) × (rest : R.State) × (stream R
          (grant_resources fuel g role) s
        ≡ (calls, ok (tt, rest)))
      × (length numbers ≡ count)
      × AllNew [] numbers
      × All (λ i. i < length g.resources) numbers
      × MadeFor (GrantsAt g role) numbers calls

  -- The loop that draws the grants of a role ends, given as much fuel as it takes for the source to give as many different numbers as the scale asks grants of a role: it then makes one call for each of that many different resources of the registry, which grants the role the action of that resource.
  pub grant_resources-AllGranted :
      (s : R.State)
      → 0 < length g.resources
      → Scale.grants_per_role g.scale ≤ fresh [] (drawn R (length g.resources) fuel s)
      → AllGranted (Scale.grants_per_role g.scale) s
  unfolding grant_resources
  grant_resources-AllGranted s some_in enough =
      let same : suc (length g.resources - 1) ≡ length g.resources = omega (arith, some_in) in
      let made =
        draw_distinct-Completes R in_range (length g.resources - 1) (Scale.grants_per_role g.scale)
          (grant g role) (GrantsAt g role) (λ i s b. one_grant i s (omega (arith, b, same))) fuel []
          s (omega arith)
          (subst (λ m. Scale.grants_per_role g.scale ≤ 0 + fresh [] (drawn R m fuel s)) (sym same)
            (omega (arith, enough))) in
      let (numbers, calls, rest, run, count, new, small, each) = made in
      (
        numbers,
        calls,
        rest,
        subst
            (λ m.
              stream R
                (draw_distinct (int_n m) (λ i _. grant g role i) (Scale.grants_per_role g.scale)
                  fuel [] tt)
                s
              ≡ (calls, ok (tt, rest)))
            same run,
        omega (arith, count),
        new,
        subst (λ m. All (λ i. i < m) numbers) same small,
        each,
      )
