-- ===== src/Seed/Generator/Tables/Staffing.antt =====
-- The roles of every root, and the personas of the organizations, however they are drawn.
use test_permission.Base.{
  Bool, true, false, ℕ, suc, ◌%◌, ◌<◌, ◌≤◌, ◌≡◌, ◌⊎◌, inl, inr, refl, sym, subst, String, some,
  List, [], ◌∷◌, length, get_elem?, arith,
}
use mathlib.Core.Option.{some-injective}
use test_permission.Seed.Types.{Scale, Org, Account}
use test_permission.Seed.Program.{Call}
use test_permission.Seed.Program.Laws.{Emits, Emits-fold_range}
use test_permission.Seed.Program.Picks.{Emits-get_then, Emits-pick_then, All-mem}
use test_permission.Seed.Generator.{
  push_at, default_roles, custom_roles, employment_types, first_names, last_names,
}
use test_permission.Seed.Generator.Slices.{length-snoc, get_elem?-snoc, empties-IsBuckets}
use test_permission.Seed.Generator.Tables.Laws.{Below, push-Below, IsDivided}
use test_permission.Seed.Generator.Tables.{
  Divisions, Roles, Personas, add_role, add_roles, custom_role, staff, build_roles, add_account,
  build_accounts, add_persona, build_personas,
}

abbrev pub IsStaffed : ℕ → ℕ → Roles → Type 0
IsStaffed filled n r = Below filled n (length r.roles) r.roles_by_root

-- As many personas as homes, each home one of the organizations.
abbrev pub IsPeopled : ℕ → ℕ → Personas → Type 0
IsPeopled orgs n ps =
    (length ps.personas ≡ n)
    × (length ps.persona_org ≡ n)
    × ((i oi : ℕ) → get_elem? ps.persona_org i ≡ some oi → oi < orgs)

module _ (P : Call → Type 0) (padded : ℕ → ℕ → String) (s : Scale) where
  add_role-IsStaffed :
      (filled filled' n root : ℕ) (root_id : String) (is_default : Bool) (key : String) (r : Roles)
      → ((i : ℕ) → i < filled' → (i < filled) ⊎ (i ≡ root))
      → IsStaffed filled n r
      → IsStaffed filled' n (add_role padded root root_id is_default key r)
  add_role-IsStaffed filled filled' n root root_id is_default key r more h =
      subst (λ m. Below filled' n m (push_at root (length r.roles) r.roles_by_root))
        (sym (length-snoc r.roles _))
        (push-Below filled filled' n root (length r.roles) r.roles_by_root more h)

  add_roles-IsStaffed :
      (filled n root : ℕ) (root_id : String) (keys : List String) (r : Roles)
      → IsStaffed filled n r
      → IsStaffed filled n (add_roles padded root root_id keys r)
  unfolding add_roles
  add_roles-IsStaffed filled n root root_id [] r h = h
  add_roles-IsStaffed filled n root root_id (key ∷ keys) r h =
      add_roles-IsStaffed filled n root root_id keys _
        (add_role-IsStaffed filled filled n root root_id true key r (λ i b. inl b) h)

  -- The first of the default roles is the first of the root.
  default_roles-IsStaffed :
      (n root : ℕ) (root_id : String) (r : Roles)
      → IsStaffed root n r
      → IsStaffed (suc root) n (add_roles padded root root_id default_roles r)
  unfolding add_roles
  default_roles-IsStaffed n root root_id r h =
      add_roles-IsStaffed (suc root) n root root_id ("admin" ∷ "manager" ∷ "staff" ∷ "auditor" ∷ [])
        (add_role padded root root_id true "owner" r)
        (add_role-IsStaffed root (suc root) n root root_id true "owner" r (λ i b. ground (arith, b))
          h)

  staff-Emits :
      (orgs : List Org) (n root : ℕ) (r : Roles)
      → root < length orgs
      → IsStaffed root n r
      → Emits P (IsStaffed (suc root) n) (staff padded s orgs root r)
  unfolding Emits staff custom_role
  staff-Emits orgs n root r b h = Emits-get_then P _ orgs root _ b (λ o _. (
    omega arith,
    λ m _.
        Emits-fold_range P {I = λ _. IsStaffed (suc root) n} (custom_role padded root (Org.id o)) 0
          m
          (λ k acc _ _ h. Emits-pick_then P _ custom_roles _ (omega arith) (λ key _.
            add_role-IsStaffed (suc root) (suc root) n root (Org.id o) false key acc (λ i b. inl b)
              h))
          (add_roles padded root (Org.id o) default_roles r)
          (default_roles-IsStaffed n root (Org.id o) r h),
  ))

  pub build_roles-Emits :
      (orgs : List Org)
      → s.roots ≤ length orgs
      → Emits P (IsStaffed s.roots s.roots) (build_roles padded s orgs)
  unfolding build_roles
  build_roles-Emits orgs enough =
      subst (λ m. Emits P (IsStaffed m s.roots) (build_roles padded s orgs)) (omega arith)
        (Emits-fold_range P {I = λ i. IsStaffed i s.roots} (staff padded s orgs) 0 s.roots
          (λ i acc _ b h. staff-Emits orgs s.roots i acc (omega (arith, b, enough)) h) _
          (empties-IsBuckets s.roots _))

  pub build_accounts-Emits :
      Emits P (λ accounts. length accounts ≡ s.accounts) (build_accounts padded s)
  unfolding Emits build_accounts add_account
  build_accounts-Emits =
      subst (λ m. Emits P (λ accounts. length accounts ≡ m) (build_accounts padded s)) (omega arith)
        (Emits-fold_range P {I = λ i accounts. length accounts ≡ i} (add_account padded) 0
          s.accounts
          (λ i accounts _ _ h. Emits-pick_then P _ first_names _ (omega arith) (λ first _.
            Emits-pick_then P _ last_names _ (omega arith)
              (λ last _. omega (arith, h, length-snoc accounts _))))
          [] refl)

  module _ (orgs : List Org) (d : Divisions) (accounts : List Account)
      (divided : IsDivided (length orgs) (length orgs) d) (counted : length accounts ≡ s.accounts)
      (some_accounts : 0 < s.accounts) (some_orgs : 0 < length orgs) where
    add_persona-Emits :
        (i : ℕ) (ps : Personas)
        → IsPeopled (length orgs) i ps
        → Emits P (IsPeopled (length orgs) (suc i)) (add_persona padded s orgs d accounts i ps)
    unfolding Emits add_persona
    add_persona-Emits i ps (people, homes, inside) = (
      some_orgs,
      λ oi b. Emits-get_then P _ d.divs_by_org oi _ (omega (arith, b, divided.sized)) (λ divs at_oi.
          Emits-pick_then P _ divs _ (divided.some_in oi divs b at_oi) (λ di listed.
            Emits-get_then P _ d.divisions di _
              (All-mem _ divs (divided.labelled oi divs at_oi) listed)
              (λ div _.
                Emits-get_then P _ accounts (i % s.accounts) _
                  (omega (arith, counted, some_accounts))
                  (λ account _. Emits-get_then P _ orgs oi _ b (λ o _. (
                    omega arith,
                    λ clearance _.
                        Emits-pick_then P _ employment_types _ (omega arith) (λ employment _. (
                          omega (arith, people, length-snoc ps.personas _),
                          omega (arith, homes, length-snoc ps.persona_org oi),
                          λ j home e. elim (get_elem?-snoc ps.persona_org oi j e) [
                            | inl old ↦ inside j home old
                            | inr (_, is_new) ↦
                                subst (λ m. m < length orgs) (sym (some-injective home oi is_new)) b
                          ],
                        )),
                  )))))),
    )

    pub build_personas-Emits :
        Emits P (IsPeopled (length orgs) s.personas) (build_personas padded s orgs d accounts)
    unfolding build_personas
    build_personas-Emits =
        subst (λ m. Emits P (IsPeopled (length orgs) m) (build_personas padded s orgs d accounts))
          (omega arith)
          (Emits-fold_range P {I = IsPeopled (length orgs)} (add_persona padded s orgs d accounts) 0
            s.personas (λ i acc _ _ h. add_persona-Emits i acc h) _ (refl, refl, λ i oi e. cc))
