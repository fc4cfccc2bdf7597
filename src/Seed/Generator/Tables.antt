-- ===== src/Seed/Generator/Tables.antt =====
-- internal/seed/generator.go `BuildBasis`: divisions of each organization, roles of each root, and
-- accounts with their personas.
pub mod Laws
pub mod Staffing
use test_permission.Base.{
  Bool, true, false, ℕ, suc, ◌+◌, ◌*◌, ◌%◌, String, List, [], ◌∷◌, ◌++◌, length,
}
use Prim.Native.String.{◌++◌ as str_append}
use test_permission.Base.Int.{pos}
use test_permission.Seed.Types.{Scale, Org, Division, Role, Account, Persona}
use test_permission.Seed.Program.{Program, done, ◌>>=◌, int_n, at, choose, fold_each, fold_range}
use test_permission.Seed.Generator.{
  default_divisions, custom_divisions, default_roles, custom_roles, employment_types, first_names,
  last_names, empties, indexed_from, push_at, id_of, spaced,
}

-- `g.Divisions`, `g.DivsByOrg` and `divSeq`.
pub record Divisions : Type 0 where
  pub divisions : List Division
  pub divs_by_org : List (List ℕ)
  pub div_seq : ℕ

-- `g.Roles`, `g.RolesByRoot` and `roleSeq`.
pub record Roles : Type 0 where
  pub roles : List Role
  pub roles_by_root : List (List ℕ)
  pub role_seq : ℕ

-- `g.Personas`, `g.PersonaOrg` and `g.PersonasByOrg`.
pub record Personas : Type 0 where
  pub personas : List Persona
  pub persona_org : List ℕ
  pub personas_by_org : List (List ℕ)

module _ (padded : ℕ → ℕ → String) where
  abbrev pub add_division : ℕ → Org → Bool → String → Divisions → Divisions
  add_division oi o is_default key d = record {
    divs_by_org = push_at oi (length d.divisions) d.divs_by_org;
    divisions =
        d.divisions
        ++ (record {
          id = id_of padded "div-" 6 d.div_seq;
          org_id = o.id;
          key = key;
          name = key;
          is_default = is_default;
        }
            ∷ []);
    div_seq = suc d.div_seq;
  }

  unfoldable pub add_divisions : ℕ → Org → List String → Divisions → Divisions
  add_divisions oi o [] d = d
  add_divisions oi o (key ∷ keys) d = add_divisions oi o keys (add_division oi o true key d)

  unfoldable pub custom_division : ℕ → Org → ℕ → Divisions → Program Divisions
  custom_division oi o n d = do key ← choose custom_divisions; done (add_division oi o false key d)

  unfoldable pub divide : Scale → ℕ × Org → Divisions → Program Divisions
  divide s (oi, o) d = do
    n ← int_n (s.div_custom_max + 1)
    fold_range (custom_division oi o) 0 n (add_divisions oi o default_divisions d)

  unfoldable pub build_divisions : Scale → List Org → Program Divisions
  build_divisions s orgs =
      fold_each (divide s) (indexed_from 0 orgs)
        (record { divisions = []; divs_by_org = empties (length orgs); div_seq = 0 })

  abbrev pub add_role : ℕ → String → Bool → String → Roles → Roles
  add_role root root_id is_default key r = record {
    roles_by_root = push_at root (length r.roles) r.roles_by_root;
    roles =
        r.roles
        ++ (record {
          id = id_of padded "role-" 6 r.role_seq;
          org_id = root_id;
          key = key;
          name = key;
          is_default = is_default;
        }
            ∷ []);
    role_seq = suc r.role_seq;
  }

  unfoldable pub add_roles : ℕ → String → List String → Roles → Roles
  add_roles root root_id [] r = r
  add_roles root root_id (key ∷ keys) r =
      add_roles root root_id keys (add_role root root_id true key r)

  unfoldable pub custom_role : ℕ → String → ℕ → Roles → Program Roles
  custom_role root root_id n r = do
    key ← choose custom_roles
    done (add_role root root_id false key r)

  unfoldable pub staff : Scale → List Org → ℕ → Roles → Program Roles
  staff s orgs root r = do
    root_org ← at orgs root
    n ← int_n (s.role_custom_max + 1)
    fold_range (custom_role root (Org.id root_org)) 0 n
        (add_roles root (Org.id root_org) default_roles r)

  unfoldable pub build_roles : Scale → List Org → Program Roles
  build_roles s orgs =
      fold_range (staff s orgs) 0 s.roots
        (record { roles = []; roles_by_root = empties s.roots; role_seq = 0 })

  abbrev account_of : ℕ → String → String → Account
  account_of i first last = record {
    id = id_of padded "acc-" 6 i;
    email = str_append first (
        str_append "."
          (str_append last (str_append "." (str_append (padded 6 i) "@example.co.id"))));
    name = spaced first last;
  }

  unfoldable pub add_account : ℕ → List Account → Program (List Account)
  add_account i accounts = do
    first ← choose first_names
    last ← choose last_names
    done (accounts ++ (account_of i first last ∷ []))

  unfoldable pub build_accounts : Scale → Program (List Account)
  build_accounts s = fold_range add_account 0 s.accounts []

  module _ (s : Scale) (orgs : List Org) (d : Divisions) (accounts : List Account) where
    unfoldable pub add_persona : ℕ → Personas → Program Personas
    add_persona i ps = do
      oi ← int_n (length orgs)
      divs ← at d.divs_by_org oi
      di ← choose divs
      div ← at d.divisions di
      account ← at accounts (i % s.accounts)
      o ← at orgs oi
      clearance ← int_n 4
      employment ← choose employment_types
      done (record {
        personas =
            ps.personas
            ++ (record {
              id = id_of padded "psn-" 6 i;
              account_id = Account.id account;
              org_id = Org.id o;
              division_id = Division.id div;
              clearance = pos (1 + clearance);
              employment_type = employment;
              region = Org.region o;
            }
                ∷ []);
        persona_org = ps.persona_org ++ (oi ∷ []);
        personas_by_org = push_at oi i ps.personas_by_org;
      })

    unfoldable pub build_personas : Program Personas
    build_personas =
        fold_range add_persona 0 s.personas
          (record { personas = []; persona_org = []; personas_by_org = empties (length orgs) })
