-- ===== src/Seed/Relationships.antt =====
-- internal/seed/writer_spicedb.go: the relationships that each record becomes.
-- `structpb.NewStruct`, which makes each number a float64, is a parameter: from the map that the code
-- builds, whose integers are Go's, to the map that the server reads from the struct, its whole
-- numbers as integers again. Nothing is assumed of the two: the result may be rounded or an error.
use test_permission.Base.{
  Bool, String, Option, none, some, List, [], ◌∷◌, ◌++◌, ◌==◌, if◌then◌else◌,
}
use test_permission.Base.Int.{ℤ}
use test_permission.Base.Fallible.{Fallible, ok, ◌>>=◌, wrapping}
use test_permission.Seed.Types.{Org, Folder, AbacDoc, PurchaseOrder, AclEntry, Fact}

pub data CaveatValue : Type 0 where
  boolean : Bool → CaveatValue
  integer : ℤ → CaveatValue
  text : String → CaveatValue
  texts : List String → CaveatValue

abbrev pub CaveatContext : Type 0
CaveatContext = List (String × CaveatValue)

pub record Caveat : Type 0 where
  pub name : String
  pub context : CaveatContext

pub record Relationship : Type 0 where
  pub res_type : String
  pub res_id : String
  pub relation : String
  pub subj_type : String
  pub subj_id : String
  pub subj_rel : String
  pub caveat : Option Caveat

abbrev pub rel : String → String → String → String → String → String → Option Caveat → Relationship
rel res_type res_id relation subj_type subj_id subj_rel caveat = record {
  res_type = res_type;
  res_id = res_id;
  relation = relation;
  subj_type = subj_type;
  subj_id = subj_id;
  subj_rel = subj_rel;
  caveat = caveat;
}

abbrev pub doc_attrs_context : AbacDoc → CaveatContext
doc_attrs_context d =
    ("classification", CaveatValue.integer d.classification)
    ∷ ("division", CaveatValue.text d.division_key)
    ∷ ("status", CaveatValue.text d.status)
    ∷ ("region", CaveatValue.text d.region)
    ∷ []

abbrev pub po_limits_context : PurchaseOrder → CaveatContext
po_limits_context po =
    ("active", CaveatValue.boolean po.policy_active)
    ∷ ("min_amount", CaveatValue.integer po.policy_min_amount)
    ∷ ("max_amount", CaveatValue.integer po.policy_max_amount)
    ∷ ("regions", CaveatValue.texts po.policy_regions)
    ∷ []

unfoldable pub org_rels : Org → List Relationship
org_rels o =
    if o.parent_id == ""
    then []
    else rel "org_unit" o.id "parent" "org_unit" o.parent_id "" none ∷ []

abbrev shared_rels : Folder → List Relationship
shared_rels f =
    if f.shared_org_id == ""
    then []
    else rel "folder" f.id "unit" "org_unit" f.shared_org_id "" none ∷ []

abbrev parent_rels : Folder → List Relationship
parent_rels f =
    if f.parent_id == "" then [] else rel "folder" f.id "parent" "folder" f.parent_id "" none ∷ []

unfoldable pub folder_rels : Folder → List Relationship
folder_rels f =
    rel "folder" f.id "unit" "org_unit" f.org_id "" none ∷ (shared_rels f ++ parent_rels f)

unfoldable pub acl_relation : AclEntry → String
acl_relation e = if e.action == "edit" then "editor" else "viewer"

module _ (new_struct : CaveatContext → Fallible CaveatContext) where
  -- What each record method hands to `add`, in order; the other records write nothing.
  unfoldable pub rels_of : Fact → Fallible (List Relationship)
  unfolding org_rels folder_rels acl_relation
  rels_of (Fact.org o) = ok (org_rels o)
  rels_of (Fact.persona_role pr) =
      ok (rel "role" pr.role_id "assignee" "persona" pr.persona_id "" none ∷ [])
  rels_of (Fact.role_grant rg) =
      ok (rel rg.resource_type rg.resource_id "allowed_role" "role" rg.role_id "assignee" none ∷ [])
  rels_of (Fact.folder f) = ok (folder_rels f)
  rels_of (Fact.rebac_doc d) =
      ok (rel "rebac_document" d.id "folder" "folder" d.folder_id "" none ∷ [])
  rels_of (Fact.membership m) =
      ok (rel "org_unit" m.org_id m.relation "persona" m.persona_id "" none ∷ [])
  rels_of (Fact.abac_doc d) = do
    ctx ← wrapping "abac caveat context" (new_struct (doc_attrs_context d))
    ok (
        rel "abac_document" d.id "reader" "persona" "*" ""
          (some (record { name = "doc_attrs"; context = ctx }))
        ∷ [])
  rels_of (Fact.pbac_assignment a) =
      ok (rel "pbac_policy" a.policy_id "assignee" "persona" a.persona_id "" none ∷ [])
  rels_of (Fact.purchase_order po) = do
    ctx ← wrapping "pbac caveat context" (new_struct (po_limits_context po))
    ok (
        rel "purchase_order" po.id "governed_by" "pbac_policy" po.policy_id ""
          (some (record { name = "po_limits"; context = ctx }))
        ∷ [])
  rels_of (Fact.acl_entry e) =
      ok (rel "acl_document" e.resource_id (acl_relation e) "persona" e.persona_id "" none ∷ [])
  rels_of _ = ok []
