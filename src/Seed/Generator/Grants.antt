-- ===== src/Seed/Generator/Grants.antt =====
-- internal/seed/generator.go `StreamRBAC`: the grants of every role, then the roles of every persona.
pub mod Laws
pub mod Progress
use test_permission.Base.{true, false, ℕ, ◌+◌, ◌*◌, String, List, [], length, ltb, if◌then◌else◌}
use test_permission.Seed.Types.{
  Scale, Role, Persona, RegistryResource, RoleGrant, PersonaRole, Fact,
}
use test_permission.Seed.Program.{
  Program, done, ◌>>=◌, ◌>>◌, int_n, at, choose, emit, for_each, for_range, draw_distinct,
}
use test_permission.Seed.Generator.{Generator}
use test_permission.Seed.Generator.Basis.{begin, end}

-- How many roles the number `x` below 100 gives a persona.
abbrev pub role_weight : ℕ → ℕ
role_weight x = if ltb x 20 then 1 else if ltb x 50 then 2 else if ltb x 80 then 3 else 4

abbrev pub at_most : ℕ → ℕ → ℕ
at_most limit n = if ltb limit n then limit else n

module _ (g : Generator) where
  unfoldable pub grant : Role → ℕ → Program (Unit {0})
  grant role ri = do
    res ← at g.resources ri
    emit (
        Fact.role_grant (record {
          role_id = role.id;
          resource_type = RegistryResource.kind res;
          resource_id = RegistryResource.id res;
          action = RegistryResource.action res;
        }))

  unfoldable pub assign : ℕ → ℕ → Program (Unit {0})
  assign pi role_idx = do
    p ← at g.personas pi
    role ← at g.roles role_idx
    emit (
        Fact.persona_role
          (record { persona_id = Persona.id p; role_id = Role.id role; org_id = Role.org_id role }))

module _ (fuel : ℕ) (g : Generator) where
  unfoldable pub grant_resources : Role → Program (Unit {0})
  grant_resources role =
      draw_distinct (int_n (length g.resources)) (λ ri _. grant g role ri)
        (Scale.grants_per_role g.scale) fuel [] tt

  unfoldable pub assign_roles : ℕ → Program (Unit {0})
  assign_roles pi = do
    oi ← at g.persona_org pi
    root ← at g.root_ordinal oi
    roles ← at g.roles_by_root root
    x ← int_n 100
    draw_distinct (choose roles) (λ role_idx _. assign g pi role_idx)
        (at_most (length roles) (role_weight x)) fuel [] tt

  unfoldable pub stream_rbac : Program (Unit {0})
  stream_rbac = do
    begin "rbac" (length g.roles * Scale.grants_per_role g.scale + length g.personas * 2)
    for_each grant_resources g.roles
    for_range assign_roles (length g.personas)
    end "rbac"
