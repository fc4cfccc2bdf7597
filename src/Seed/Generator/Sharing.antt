-- ===== src/Seed/Generator/Sharing.antt =====
-- internal/seed/generator.go `StreamACL`: the documents that are shared one by one.
pub mod Laws
use test_permission.Base.{
  Bool, ℕ, suc, ◌+◌, ◌-◌, ◌*◌, ◌/◌, String, List, [], length, ltb, if◌then◌else◌,
}
use test_permission.Seed.Types.{Scale, Org, Persona, AclDoc, AclEntry, Fact}
use test_permission.Seed.Program.{Program, ◌>>=◌, ◌>>◌, int_n, at, emit, for_range, draw_distinct}
use test_permission.Seed.Generator.{Generator, id_of}
use test_permission.Seed.Generator.Basis.{begin, end}

-- The action of an entry, by a test that holds 3 times in 10.
abbrev pub entry_action : Bool → String
entry_action is_edit = if is_edit then "edit" else "view"

module _ (g : Generator) where
  unfoldable pub make_entry : String → ℕ → Program (Unit {0})
  make_entry doc_id pi = do
    x ← int_n 10
    p ← at g.personas pi
    emit (
        Fact.acl_entry (record {
          resource_id = doc_id;
          persona_id = Persona.id p;
          action = entry_action (ltb x 3);
        }))

module _ (padded : ℕ → ℕ → String) (fuel : ℕ) (g : Generator) where
  -- `IntN` takes the size of the range of entries, which is 0 here where it is not positive there.
  unfoldable pub make_acl_doc : ℕ → Program (Unit {0})
  make_acl_doc i = do
    oi ← int_n (length g.orgs)
    o ← at g.orgs oi
    let doc_id : String = id_of padded "acldoc-" 6 i
    emit (Fact.acl_doc (record { id = doc_id; org_id = Org.id o }))
    more ← int_n (suc (Scale.acl_entries_max g.scale) - Scale.acl_entries_min g.scale)
    draw_distinct (int_n (length g.personas)) (λ pi _. make_entry g doc_id pi)
        (Scale.acl_entries_min g.scale + more) fuel [] tt

  unfoldable pub stream_acl : Program (Unit {0})
  stream_acl = do
    begin "acl" (
        Scale.acl_docs g.scale
        * (1 + (Scale.acl_entries_min g.scale + Scale.acl_entries_max g.scale) / 2))
    for_range make_acl_doc (Scale.acl_docs g.scale)
    end "acl"
