-- ===== src/Seed/Generator/Basis.antt =====
-- internal/seed/generator.go `BuildBasis` as a whole, and `StreamBasis`.
pub mod Laws
pub mod Building
use test_permission.Base.{ℕ, zero, suc, ◌+◌, String, List, [], ◌∷◌, length, insert}
use test_permission.Seed.Types.{Scale, Org, Fact}
use test_permission.Seed.Program.{
  Program, done, call, ◌>>=◌, ◌>>◌, begin_phase, end_phase, emit, for_each,
}
use test_permission.Seed.Generator.{Generator}
use test_permission.Seed.Generator.Forest.{Forest, build_orgs}
use test_permission.Seed.Generator.Tables.{
  Divisions, Roles, Personas, build_divisions, build_roles, build_accounts, build_personas,
}
use test_permission.Seed.Generator.Registry.{flatten_catalog}

unfoldable pub index_orgs : ℕ → List Org → List (String × ℕ) → List (String × ℕ)
index_orgs i [] index = index
index_orgs i (o ∷ os) index = index_orgs (suc i) os (insert o.id i index)

-- `sink.BeginPhase` and `sink.EndPhase`.
abbrev pub begin : String → ℕ → Program (Unit {0})
begin name total = call (begin_phase name total) (done tt)

abbrev pub end : String → Program (Unit {0})
end name = call (end_phase name) (done tt)

module _ (padded : ℕ → ℕ → String) (fuel : ℕ) where
  unfoldable pub build_basis : Generator → Program Generator
  unfolding index_orgs
  build_basis g = do
    f ← build_orgs padded g.scale fuel
    d ← build_divisions padded g.scale (Forest.orgs f)
    r ← build_roles padded g.scale (Forest.orgs f)
    accounts ← build_accounts padded g.scale
    ps ← build_personas padded g.scale (Forest.orgs f) d accounts
    done (record {
      seed = g.seed;
      scale = g.scale;
      cat = g.cat;
      orgs = Forest.orgs f;
      org_idx = index_orgs 0 (Forest.orgs f) [];
      root_of = Forest.root_of f;
      parent_of = Forest.parent_of f;
      divisions = Divisions.divisions d;
      divs_by_org = Divisions.divs_by_org d;
      roles = Roles.roles r;
      roles_by_root = Roles.roles_by_root r;
      root_ordinal = Forest.root_ordinal f;
      accounts = accounts;
      personas = Personas.personas ps;
      persona_org = Personas.persona_org ps;
      personas_by_org = Personas.personas_by_org ps;
      nodes_by_root = Forest.nodes_by_root f;
      resources = flatten_catalog g.cat;
    })

module _ (g : Generator) where
  abbrev basis_total : ℕ
  basis_total =
      length g.orgs
      + length g.divisions
      + length g.roles
      + length g.accounts
      + length g.personas
      + length g.resources

  unfoldable pub stream_basis : Program (Unit {0})
  stream_basis = do
    begin "basis" basis_total
    for_each (λ o. emit (Fact.org o)) g.orgs
    for_each (λ d. emit (Fact.division d)) g.divisions
    for_each (λ ro. emit (Fact.role ro)) g.roles
    for_each (λ a. emit (Fact.account a)) g.accounts
    for_each (λ p. emit (Fact.persona p)) g.personas
    for_each (λ res. emit (Fact.resource res)) g.resources
    end "basis"
