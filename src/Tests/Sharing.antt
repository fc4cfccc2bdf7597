-- ===== src/Tests/Sharing.antt =====
-- Both engines on a document that is shared for editing.
use test_permission.Base.{
  true, String, List, [], ◌∷◌, ◌≡◌, ◌↔◌, inl, inr, refl, arith, Memᴰ, if◌then◌else◌, ◌==◌,
  Bool-cases, eq_iff,
}
use test_permission.Base.Members.{not-mem-nil}
use test_permission.Base.Fallible.{ok}
use test_permission.Domain.{Result, allow}
use test_permission.Cedar
use test_permission.Spicedb
use test_permission.Seed.Types.{Fact}
use test_permission.Seed.Relationships.{Relationship}
use test_permission.Seed.Rows.{Cell, Row, row_of, cols_of}
use test_permission.Seed.PostgresWriter.Phases.{rows_of}
use test_permission.Seed.SpicedbWriter.Phases.{rels_given}
use test_permission.Postgres.{load_for_check}
use test_permission.Database.{Database, Row1, Has, cell, SelectsAclEntries}
use test_permission.Database.Selects.{Shared}
use test_permission.Equivalence.Acl.{view, acl_request, Gives}
use test_permission.Equivalence.Acl.Sides.{ActionsKnown}
use test_permission.Equivalence.Acl.Agreement.{acl_engines_agree}
use test_permission.Tests.Samples.{integers, edit_entry}
use test_permission.Tests.Selecting.{struct_of}
use test_permission.Tests.Agreement.{
  policy_engine, policy_engine-FollowsPolicies, schema_client, schema_client-FollowsSchema,
  accepts_sample, queries, mem_single,
}

abbrev shared_facts : List Fact
shared_facts = Fact.acl_entry edit_entry ∷ []

abbrev shared_tables : Database
shared_tables table = rows_of table shared_facts

abbrev shared_rels : List Relationship
shared_rels = rels_given struct_of shared_facts

abbrev shared_row : Row
shared_row = Cell.text "d1" ∷ Cell.text "p1" ∷ Cell.text "edit" ∷ []

queries-SelectsAclEntries : SelectsAclEntries queries shared_tables
unfolding row_of rows_of cols_of cell
queries-SelectsAclEntries id = (_, refl, λ persona action. (to persona action, from persona action))
  where
    to :
        (persona action : String)
        → Memᴰ {A = String × String}
            (persona, action)
            (if "d1" == id then ("p1", "edit") ∷ [] else [])
        → Row1 shared_tables "acl_entries" "resource_id" (Cell.text id) (λ row.
          Has "acl_entries" "persona_id" row (Cell.text persona)
          × Has "acl_entries" "action" row (Cell.text action))
    to persona action m = elim (Bool-cases ("d1" == id)) [
      | inl same ↦
          let e = mem_single (rw same at m) in
          (
            shared_row,
            Memᴰ.head refl,
            ground (arith, same, eq_iff "d1" id),
            (ground (arith, e), ground (arith, e)),
          )
      | inr other ↦ absurd (not-mem-nil (rw other at m))
    ]

    from :
        (persona action : String)
        → Row1 shared_tables "acl_entries" "resource_id" (Cell.text id) (λ row.
          Has "acl_entries" "persona_id" row (Cell.text persona)
          × Has "acl_entries" "action" row (Cell.text action))
        → Memᴰ {A = String × String}
            (persona, action)
            (if "d1" == id then ("p1", "edit") ∷ [] else [])
    from persona action (row, m, a, (b, c)) =
        let e : row ≡ shared_row = mem_single m in
        let same : ("d1" == id) ≡ true = ground (arith, e, a, eq_iff "d1" id) in
        rw same (Memᴰ.head (ground (arith, e, b, c)))

shared_facts-ActionsKnown : ActionsKnown shared_facts
shared_facts-ActionsKnown e m = let same = mem_single m in inr (ground (arith, same))

acl_engines_agree_example :
    (c s : Result) × (Cedar.check policy_engine tt
        (load_for_check queries)
        (acl_request view "p1" "d1")
      ≡ ok c)
    × (Spicedb.check integers
          (schema_client shared_rels)
          "fully_consistent"
          (acl_request view "p1" "d1")
        ≡ ok s)
    × (c.decision ≡ s.decision)
    × ((c.decision ≡ allow) ↔ ∥ Gives (Shared shared_facts "d1" "p1") view ∥₁)
acl_engines_agree_example =
    acl_engines_agree policy_engine tt queries shared_tables integers (schema_client shared_rels)
      accepts_sample "fully_consistent" struct_of shared_rels shared_facts view "p1" "d1"
      policy_engine-FollowsPolicies (schema_client-FollowsSchema shared_rels) refl refl
      (λ table row. (λ m. m, λ m. m)) queries-SelectsAclEntries (λ r. (λ m. m, λ m. m))
      shared_facts-ActionsKnown
