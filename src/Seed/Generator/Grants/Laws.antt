-- ===== src/Seed/Generator/Grants/Laws.antt =====
-- What `StreamRBAC` emits, whatever is drawn.
use test_permission.Base.{ℕ, ◌<◌, ◌≡◌, refl, some, List, length, get_elem?, Memᴰ, arith}
use test_permission.Seed.Types.{
  Scale, Role, Persona, RegistryResource, RoleGrant, PersonaRole, Fact,
}
use test_permission.Seed.Program.{
  Call, begin_phase, accept, end_phase, int_n, choose, for_each, for_range,
}
use test_permission.Seed.Program.Laws.{
  Done, Emits, Emits-bind, Emits-int_n, Emits-for_each, Emits-for_range, Emits-draw_each,
}
use test_permission.Seed.Program.Picks.{
  Emits-pick, Emits-get_then, Emits-int_n_then, mem-get_elem?, All-of_mem, All-mem,
}
use test_permission.Seed.Generator.{Generator}
use test_permission.Seed.Generator.Built.{IsBuilt}
use test_permission.Seed.Generator.Grants.{
  grant, grant_resources, assign, assign_roles, stream_rbac, role_weight, at_most,
}

-- A grant of a role of the dataset on a resource of its registry, for the resource's own action.
pub record IsGrant (g : Generator) (gr : RoleGrant) : Type 0 where
  pub role : Role
  pub res : RegistryResource
  pub role_listed : Memᴰ role g.roles
  pub res_listed : Memᴰ res g.resources
  pub of_role : gr.role_id ≡ role.id
  pub of_type : gr.resource_type ≡ res.kind
  pub of_resource : gr.resource_id ≡ res.id
  pub of_action : gr.action ≡ res.action

-- A role that a persona gets is one of the root of the tree that its organization is in.
pub record IsAssignment (g : Generator) (pr : PersonaRole) : Type 0 where
  pub persona : ℕ
  pub org : ℕ
  pub root : ℕ
  pub of_root : List ℕ
  pub role_idx : ℕ
  pub p : Persona
  pub role : Role
  pub persona_at : get_elem? g.personas persona ≡ some p
  pub org_at : get_elem? g.persona_org persona ≡ some org
  pub root_at : get_elem? g.root_ordinal org ≡ some root
  pub roles_at : get_elem? g.roles_by_root root ≡ some of_root
  pub role_listed : Memᴰ role_idx of_root
  pub role_at : get_elem? g.roles role_idx ≡ some role
  pub of_persona : pr.persona_id ≡ p.id
  pub of_role : pr.role_id ≡ role.id
  pub of_org : pr.org_id ≡ role.org_id

abbrev pub RbacFact : Generator → Fact → Type 0
RbacFact g f = elim f [
  | Fact.role_grant gr ↦ IsGrant g gr
  | Fact.persona_role pr ↦ IsAssignment g pr
  | _ ↦ ⊥
]

abbrev pub RbacCall : Generator → Call → Type 0
RbacCall g (begin_phase name total) = name ≡ "rbac"
RbacCall g (accept f) = RbacFact g f
RbacCall g (end_phase name) = name ≡ "rbac"

module _ (g : Generator) where
  grant-Emits :
      (role : Role)
      → Memᴰ role g.roles
      → (ri : ℕ) → ri < length g.resources
      → Emits (RbacCall g) Done (grant g role ri)
  unfolding Emits grant
  grant-Emits role listed ri b = Emits-get_then _ Done g.resources ri _ b (λ res found. (
    record {
      role = role;
      res = res;
      role_listed = listed;
      res_listed = mem-get_elem? g.resources ri found;
      of_role = refl;
      of_type = refl;
      of_resource = refl;
      of_action = refl;
    },
    tt,
  ))

  assign-Emits :
      (pi oi root : ℕ) (roles : List ℕ)
      → pi < length g.personas
      → get_elem? g.persona_org pi ≡ some oi
      → get_elem? g.root_ordinal oi ≡ some root
      → get_elem? g.roles_by_root root ≡ some roles
      → (idx : ℕ) → Memᴰ idx roles
      → idx < length g.roles
      → Emits (RbacCall g) Done (assign g pi idx)
  unfolding Emits assign
  assign-Emits pi oi root roles in_personas org_at root_at roles_at idx listed in_roles =
      Emits-get_then _ Done g.personas pi _ in_personas (λ p persona_at.
        Emits-get_then _ Done g.roles idx _ in_roles (λ role role_at. (
          record {
            persona = pi;
            org = oi;
            root = root;
            of_root = roles;
            role_idx = idx;
            p = p;
            role = role;
            persona_at = persona_at;
            org_at = org_at;
            root_at = root_at;
            roles_at = roles_at;
            role_listed = listed;
            role_at = role_at;
            of_persona = refl;
            of_role = refl;
            of_org = refl;
          },
          tt,
        )))

module _ (fuel : ℕ) (g : Generator) (built : IsBuilt g) where
  grant_resources-Emits :
      (role : Role) → Memᴰ role g.roles → Emits (RbacCall g) Done (grant_resources fuel g role)
  unfolding grant_resources
  grant_resources-Emits role listed =
      Emits-draw_each _ (λ ri. ri < length g.resources) (int_n (length g.resources)) (grant g role)
        (Scale.grants_per_role g.scale) fuel
        (Emits-int_n _ (length g.resources) built.some_resources) (grant-Emits g role listed)

  assign_roles-Emits :
      (pi : ℕ) → pi < length g.personas → Emits (RbacCall g) Done (assign_roles fuel g pi)
  unfolding assign_roles
  assign_roles-Emits pi b =
      Emits-get_then _ Done g.persona_org pi _
        (omega (arith, b, built.home_count, built.persona_count))
        (λ oi org_at.
          Emits-get_then _ Done g.root_ordinal oi _
            (omega (arith, built.homes pi oi org_at, built.ordinal_count))
            (λ root root_at.
              let inside = built.ordinals oi root root_at in
              Emits-get_then _ Done g.roles_by_root root _
                (omega (arith, inside, built.role_buckets.sized))
                (λ roles roles_at. Emits-int_n_then _ Done 100 _ (omega arith) (λ x _.
                  Emits-draw_each _ (λ idx. Memᴰ idx roles) (choose roles) (assign g pi)
                    (at_most (length roles) (role_weight x)) fuel
                    (Emits-pick _ _ roles (built.role_buckets.some_in root roles inside roles_at)
                      (λ idx m. m))
                    (λ idx m.
                      assign-Emits g pi oi root roles b org_at root_at roles_at idx m
                        (All-mem _ roles (built.role_buckets.labelled root roles roles_at) m))))))

  pub stream_rbac-Emits : Emits (RbacCall g) Done (stream_rbac fuel g)
  unfolding stream_rbac Emits
  stream_rbac-Emits = (
    refl,
    Emits-bind _ Done Done (for_each (grant_resources fuel g) g.roles) _
        (Emits-for_each _ {W = λ role. Memᴰ role g.roles} (grant_resources fuel g)
          grant_resources-Emits g.roles (All-of_mem g.roles (λ role m. m)))
        (λ _ _.
          Emits-bind _ Done Done (for_range (assign_roles fuel g) (length g.personas)) _
            (Emits-for_range _ (assign_roles fuel g) (length g.personas) assign_roles-Emits)
            (λ _ _. (refl, tt))),
  )
