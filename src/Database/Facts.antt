-- ===== src/Database/Facts.antt =====
-- The rows of a table, and the records that they come from.
use test_permission.Base.{
  false, String, List, [], ◌∷◌, ◌≡◌, refl, ◌↔◌, ◌==◌, inl, inr, arith, eq_iff, eq_refl, Bool-cases,
  Memᴰ,
}
use test_permission.Base.Members.{
  mem-append, mem-append_left, mem-append_right, mem-cons, not-mem-nil,
}
use test_permission.Base.Fallible.{Fallible, ok, err}
use test_permission.Seed.Types.{Fact, RegistryResource, PersonaRole, RoleGrant, AclEntry}
use test_permission.Seed.Rows.{Row, row_of, resource_row}
use test_permission.Seed.PostgresWriter.Laws.{new_rows}
use test_permission.Seed.PostgresWriter.Phases.{rows_of}

mem-new_rows :
    (table : String) (m : Fallible (String × Row)) (row : Row)
    → Memᴰ row (new_rows table m) ↔ (m ≡ ok (table, row))
mem-new_rows table (err e) row = (λ m. absurd (not-mem-nil m), λ h. absurd (cc))
mem-new_rows table (ok (t, x)) row = elim (Bool-cases (t == table)) [
  | inl here ↦
      let e : t ≡ table = (eq_iff t table).0 here in
      rw here (
        (λ m. elim (mem-cons m) [
          | inl same ↦ cc (e, same)
          | inr no_more ↦ absurd (not-mem-nil no_more)
        ]),
        λ h. Memᴰ.head (ground arith),
      )
  | inr other ↦ rw other (λ m. absurd (not-mem-nil m), λ h. absurd (ground (arith, eq_refl table)))
]

-- A row of a table is the row of a record that belongs there.
pub mem-rows_of :
    (table : String) (facts : List Fact) (row : Row)
    → Memᴰ row (rows_of table facts) ↔ ((f : Fact) × Memᴰ f facts × (row_of f ≡ ok (table, row)))
unfolding rows_of
mem-rows_of table [] row = (λ m. absurd (not-mem-nil m), λ (f, m, e). absurd (not-mem-nil m))
mem-rows_of table (f ∷ fs) row = (
  λ m. elim (mem-append (new_rows table (row_of f)) (rows_of table fs) m) [
    | inl here ↦ (f, Memᴰ.head refl, (mem-new_rows table (row_of f) row).0 here)
    | inr later ↦ let (g, m', e) = (mem-rows_of table fs row).0 later in (g, Memᴰ.tail m', e)
  ],
  λ (g, m, e). elim (mem-cons m) [
    | inl same ↦
        mem-append_left (rows_of table fs) ((mem-new_rows table (row_of f) row).1 (rw (← same) e))
    | inr later ↦
        mem-append_right (new_rows table (row_of f)) ((mem-rows_of table fs row).1 (g, later, e))
  ],
)

-- Two tables of different names share no row of a record.
clash :
    {t u : String} {row row' : Row}
    → (t == u) ≡ false
    → ◌≡◌ {A = Fallible (String × Row)} (ok (t, row)) (ok (u, row'))
    → ⊥
clash {t} {u} differ h = ground (arith, eq_iff t u)

resource_clash :
    (r : RegistryResource) {table : String} {row : Row}
    → ("endpoints" == table) ≡ false
    → ("pages" == table) ≡ false
    → ("components" == table) ≡ false
    → resource_row r ≡ ok (table, row)
    → ⊥
unfolding resource_row
resource_clash r {table} a b c h =
    ground (arith, eq_iff "endpoints" table, eq_iff "pages" table, eq_iff "components" table)

pub persona_role_of_row :
    (f : Fact) (row : Row)
    → row_of f ≡ ok ("persona_roles", row)
    → (pr : PersonaRole) × (f ≡ Fact.persona_role pr)
unfolding row_of
persona_role_of_row (Fact.persona_role pr) row h = (pr, refl)
persona_role_of_row (Fact.resource r) row h = absurd (resource_clash r refl refl refl h)
persona_role_of_row _ row h = absurd (clash refl h)

pub role_grant_of_row :
    (f : Fact) (row : Row)
    → row_of f ≡ ok ("role_grants", row)
    → (rg : RoleGrant) × (f ≡ Fact.role_grant rg)
unfolding row_of
role_grant_of_row (Fact.role_grant rg) row h = (rg, refl)
role_grant_of_row (Fact.resource r) row h = absurd (resource_clash r refl refl refl h)
role_grant_of_row _ row h = absurd (clash refl h)

pub acl_entry_of_row :
    (f : Fact) (row : Row)
    → row_of f ≡ ok ("acl_entries", row)
    → (e : AclEntry) × (f ≡ Fact.acl_entry e)
unfolding row_of
acl_entry_of_row (Fact.acl_entry e) row h = (e, refl)
acl_entry_of_row (Fact.resource r) row h = absurd (resource_clash r refl refl refl h)
acl_entry_of_row _ row h = absurd (clash refl h)
