-- ===== src/Seed/Generator/Basis/Building.antt =====
-- What `BuildBasis` makes of a generator, whatever is drawn.
use mathlib.Core.Option.{some-injective}
use test_permission.Base.{
  ℕ, suc, ◌+◌, ◌<◌, ◌≡◌, sym, subst, ◌∙◌, inl, inr, String, List, [], ◌∷◌, length, some, All, arith,
  lookup, insert, lookup-insert, Bool-cases, ◌==◌,
}
use test_permission.Seed.Types.{Scale, Org}
use test_permission.Seed.Program.{Call}
use test_permission.Seed.Program.Laws.{Emits, Emits-bind}
use test_permission.Seed.Program.Running.{Random, InRange, stream}
use test_permission.Seed.Program.Running.Soundness.{Ends, Emits-stream}
use test_permission.Seed.Generator.{Generator}
use test_permission.Seed.Generator.Built.{IsBuilt, IsPopulated, IsBuckets}
use test_permission.Seed.Generator.Forest.{build_orgs}
use test_permission.Seed.Generator.Forest.Laws.{IsForest}
use test_permission.Seed.Generator.Forest.Growing.{build_orgs-Emits}
use test_permission.Seed.Generator.Tables.{
  Divisions, build_divisions, build_roles, build_accounts, build_personas,
}
use test_permission.Seed.Generator.Tables.Laws.{IsDivided, build_divisions-Emits}
use test_permission.Seed.Generator.Tables.Staffing.{
  IsStaffed, IsPeopled, build_roles-Emits, build_accounts-Emits, build_personas-Emits,
}
use test_permission.Seed.Generator.Registry.{flatten_catalog}
use test_permission.Seed.Generator.Registry.Laws.{flatten_catalog-HasKind}
use test_permission.Seed.Generator.Basis.{index_orgs, build_basis}

-- No call is made.
abbrev pub NoCall : Call → Type 0
NoCall _ = ⊥

none_below : (other : String) (j : ℕ) → lookup {V = ℕ} other [] ≡ some j → j < 0
unfolding lookup
none_below other j e = absurd (cc e)

-- An index of organizations names none past the last.
index_orgs-bound :
    (orgs : List Org) (start : ℕ) (index : List (String × ℕ)) (id : String) (i : ℕ)
    → ((other : String) (j : ℕ) → lookup other index ≡ some j → j < start)
    → lookup id (index_orgs start orgs index) ≡ some i
    → i < start + length orgs
unfolding index_orgs
index_orgs-bound [] start index id i below e = omega (arith, below id i e)
index_orgs-bound (o ∷ orgs) start index id i below e = omega (
  arith,
  index_orgs-bound orgs (suc start) (insert (Org.id o) start index) id i
      (λ other j found. elim (Bool-cases (Org.id o == other)) [
        | inl same ↦
            let at_start : some start ≡ some j =
              sym (lookup-insert (Org.id o) other start index ∙ rw same) ∙ found in
            omega (arith, some-injective start j at_start)
        | inr differs ↦ omega (
          arith,
          below other j (sym (lookup-insert (Org.id o) other start index ∙ rw differs) ∙ found),
        )
      ])
      e,
)

module _ (padded : ℕ → ℕ → String) (fuel : ℕ) (g : Generator) (populated : IsPopulated g.scale)
    (some_resources : 0 < length (flatten_catalog g.cat)) where
  pub build_basis-Emits : Emits NoCall IsBuilt (build_basis padded fuel g)
  unfolding Emits build_basis
  build_basis-Emits =
      Emits-bind NoCall (IsForest g.scale (Scale.org_nodes g.scale) (Scale.roots g.scale)) IsBuilt
        (build_orgs padded g.scale fuel) _ (build_orgs-Emits NoCall padded g.scale populated fuel)
        (λ f forest.
          Emits-bind NoCall (IsDivided (length f.orgs) (length f.orgs)) IsBuilt
            (build_divisions padded g.scale f.orgs) _
            (build_divisions-Emits NoCall padded g.scale f.orgs)
            (λ d divided.
              Emits-bind NoCall (IsStaffed (Scale.roots g.scale) (Scale.roots g.scale)) IsBuilt
                (build_roles padded g.scale f.orgs) _
                (build_roles-Emits NoCall padded g.scale f.orgs
                  (omega (arith, forest.org_count, populated.enough_orgs)))
                (λ r staffed.
                  Emits-bind NoCall (λ accounts. length accounts ≡ Scale.accounts g.scale) IsBuilt
                    (build_accounts padded g.scale) _ (build_accounts-Emits NoCall padded g.scale)
                    (λ accounts counted.
                      Emits-bind NoCall (IsPeopled (length f.orgs) (Scale.personas g.scale)) IsBuilt
                        (build_personas padded g.scale f.orgs d accounts) _
                        (build_personas-Emits NoCall padded g.scale f.orgs d accounts divided
                          counted populated.some_accounts
                          (omega
                            (arith, forest.org_count, populated.enough_orgs, populated.some_roots)))
                        (λ ps (people, homes, inside). record {
                          populated = populated;
                          org_count = forest.org_count;
                          root_count = forest.root_count;
                          indexed = λ id i e. omega (
                            arith,
                            index_orgs-bound f.orgs 0 [] id i none_below e,
                            forest.org_count,
                          );
                          division_buckets =
                              subst
                                (λ m.
                                  IsBuckets m m (λ _ i. i < length (Divisions.divisions d))
                                    (Divisions.divs_by_org d))
                                forest.org_count divided;
                          parent_count = forest.parent_count;
                          ordinal_count = forest.ordinal_count;
                          shallow = forest.shallow;
                          children = forest.children;
                          ordinals = forest.ordinals;
                          subsidiaries = forest.subsidiaries;
                          tops = λ c top.
                              forest.tops c top (omega (arith, top, populated.enough_orgs));
                          trees = forest.trees;
                          listed = forest.listed;
                          nodes = forest.nodes;
                          role_buckets = staffed;
                          persona_count = people;
                          home_count = homes;
                          homes = λ i oi e. omega (arith, inside i oi e, forest.org_count);
                          kinds = flatten_catalog-HasKind g.cat;
                          some_resources = some_resources;
                        })))))

  -- On a scale that has roots, accounts, personas and policies, at least as many organizations as roots, room for two levels and a positive range of ACL entries, and with a catalog that is not empty, BuildBasis never panics and makes no call of the sink: unless the loop that picks a parent runs out of its fuel, it gives a generator where the roots have no parent and every organization after them has one and stands after it, one level below it, with its id as parent id, with its root id and in the same tree (by both of the generator's slices), no deeper than the scale allows, where the nodes listed for a root are exactly those of its tree, where every root has a role at least and every persona lives in an organization, and where every registry resource has the action of its kind.
  pub build_basis-IsBuilt :
      (R : Random)
      → InRange R
      → (s : R.State)
      → All NoCall (stream R (build_basis padded fuel g) s).0
        × Ends IsBuilt (stream R (build_basis padded fuel g) s).1
  build_basis-IsBuilt R in_range s =
      Emits-stream R in_range NoCall IsBuilt (build_basis padded fuel g) s build_basis-Emits
