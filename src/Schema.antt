-- ===== src/Schema.antt =====
-- schema/spicedb/schema.zed: the permissions of the schema over a set of relationships, and the two
-- caveats. A caveat's static context, written with the relationship, wins over the context of the
-- check; a caveat with a missing parameter gives no permission.
pub mod Facts
pub mod Origins
pub mod Holders
use test_permission.Base.{
  Bool, true, false, String, Option, none, some, List, [], ◌∷◌, ◌≡◌, ◌≢◌, ◌⊎◌, ◌↔◌, ◌==◌, ◌||◌,
  ◌&&◌, not, Memᴰ, lookup, contains,
}
use test_permission.Base.Int.{ℤ, pos, leb_ℤ, eq_ℤ}
use test_permission.Seed.Relationships.{
  Relationship, rel, Caveat, CaveatContext, CaveatValue, boolean, integer, text, texts,
}

-- A parameter of a caveat: the static value, else the one of the check.
unfoldable pub param : CaveatContext → CaveatContext → String → Option CaveatValue
unfolding lookup
param static given key = elim (lookup key static) [ none ↦ lookup key given | some v ↦ some v ]

abbrev pub int_param : Option CaveatValue → Option ℤ
int_param (some (integer i)) = some i
int_param _ = none

abbrev pub text_param : Option CaveatValue → Option String
text_param (some (text s)) = some s
text_param _ = none

abbrev pub bool_param : Option CaveatValue → Option Bool
bool_param (some (boolean b)) = some b
bool_param _ = none

abbrev pub texts_param : Option CaveatValue → Option (List String)
texts_param (some (texts ss)) = some ss
texts_param _ = none

-- `caveat po_limits`
unfoldable pub po_limits :
    (active : Bool) (min_amount max_amount : ℤ) (regions : List String) (amount : ℤ)
    (region : String)
    → Bool
po_limits active min_amount max_amount regions amount region =
    active && leb_ℤ min_amount amount && leb_ℤ amount max_amount && contains regions region

module _ (rels : List Relationship) (given : CaveatContext) where
  abbrev pub Related : String → String → String → String → String → String → Type 0
  Related res_type res_id relation subj_type subj_id subj_rel =
      Memᴰ (rel res_type res_id relation subj_type subj_id subj_rel none) rels

  -- A relationship with a caveat, whose static context is `static`.
  abbrev pub Caveated : String → String → String → String → String → String → CaveatContext → Type 0
  Caveated res_type res_id relation subj_type subj_id name static =
      Memᴰ
        (rel res_type res_id relation subj_type subj_id ""
          (some (record { name = name; context = static })))
        rels

  -- `endpoint#execute`, `page#view` and `component#render` are all `allowed_role`.
  pub record HasAllowedRole (def_type id persona : String) : Type 0 where
    pub role : String
    pub allowed : Related def_type id "allowed_role" "role" role "assignee"
    pub assigned : Related "role" role "assignee" "persona" persona ""

  -- `org_unit#view_docs`
  pub data ViewsDocs (persona : String) : String → Type 0 where
    member :
        {unit : String}
        → Related "org_unit" unit "member" "persona" persona ""
        → ViewsDocs persona unit
    manager :
        {unit : String}
        → Related "org_unit" unit "manager" "persona" persona ""
        → ViewsDocs persona unit
    above :
        {unit parent : String}
        → Related "org_unit" unit "parent" "org_unit" parent ""
        → ViewsDocs persona parent
        → ViewsDocs persona unit

  -- `folder#view`
  pub data ViewsFolder (persona : String) : String → Type 0 where
    unit :
        {folder unit : String}
        → Related "folder" folder "unit" "org_unit" unit ""
        → ViewsDocs persona unit
        → ViewsFolder persona folder
    nested :
        {folder parent : String}
        → Related "folder" folder "parent" "folder" parent ""
        → ViewsFolder persona parent
        → ViewsFolder persona folder

  -- `rebac_document#view`
  pub record ViewsDocument (id persona : String) : Type 0 where
    pub folder : String
    pub in_folder : Related "rebac_document" id "folder" "folder" folder ""
    pub views : ViewsFolder persona folder

  -- `abac_document#read`: a caveated wildcard reader, with `caveat doc_attrs`.
  pub record Reads (id : String) : Type 0 where
    pub static : CaveatContext
    pub reader : Caveated "abac_document" id "reader" "persona" "*" "doc_attrs" static
    pub classification : ℤ
    pub has_classification : int_param (param static given "classification") ≡ some classification
    pub division : String
    pub has_division : text_param (param static given "division") ≡ some division
    pub status : String
    pub has_status : text_param (param static given "status") ≡ some status
    pub clearance : ℤ
    pub has_clearance : int_param (param static given "clearance") ≡ some clearance
    pub principal_division : String
    pub has_principal_division :
        text_param (param static given "principal_division") ≡ some principal_division
    pub cleared : leb_ℤ classification clearance ≡ true
    pub same_division : principal_division ≡ division
    -- `||` is true when one side is, also where the other side misses a parameter.
    pub resident :
        ((region : String) × (text_param (param static given "region") ≡ some region)
          × (text_param (param static given "principal_region") ≡ some region))
        ⊎ (clearance ≡ pos 4)
    pub not_archived : status ≢ "archived"

  -- `purchase_order#approve`
  pub record Approves (id persona : String) : Type 0 where
    pub policy : String
    pub static : CaveatContext
    pub governed :
        Caveated "purchase_order" id "governed_by" "pbac_policy" policy "po_limits" static
    pub assigned : Related "pbac_policy" policy "assignee" "persona" persona ""
    pub active : Bool
    pub has_active : bool_param (param static given "active") ≡ some active
    pub min_amount : ℤ
    pub has_min : int_param (param static given "min_amount") ≡ some min_amount
    pub max_amount : ℤ
    pub has_max : int_param (param static given "max_amount") ≡ some max_amount
    pub regions : List String
    pub has_regions : texts_param (param static given "regions") ≡ some regions
    pub amount : ℤ
    pub has_amount : int_param (param static given "amount") ≡ some amount
    pub region : String
    pub has_region : text_param (param static given "region") ≡ some region
    pub holds : po_limits active min_amount max_amount regions amount region ≡ true

  -- `acl_document#edit` is `editor`, `acl_document#view` is `viewer + editor`.
  abbrev pub Edits : String → String → Type 0
  Edits id persona = Related "acl_document" id "editor" "persona" persona ""

  abbrev pub Views : String → String → Type 0
  Views id persona = Related "acl_document" id "viewer" "persona" persona "" ⊎ Edits id persona

  -- The permissions of the schema, by definition and name.
  pub data HasPermission (persona def_type id perm : String) : Type 0 where
    execute :
        def_type ≡ "endpoint"
        → perm ≡ "execute"
        → HasAllowedRole "endpoint" id persona
        → HasPermission persona def_type id perm
    view_page :
        def_type ≡ "page"
        → perm ≡ "view"
        → HasAllowedRole "page" id persona
        → HasPermission persona def_type id perm
    render :
        def_type ≡ "component"
        → perm ≡ "render"
        → HasAllowedRole "component" id persona
        → HasPermission persona def_type id perm
    view_doc :
        def_type ≡ "rebac_document"
        → perm ≡ "view"
        → ViewsDocument id persona
        → HasPermission persona def_type id perm
    read :
        def_type ≡ "abac_document"
        → perm ≡ "read"
        → Reads id
        → HasPermission persona def_type id perm
    approve :
        def_type ≡ "purchase_order"
        → perm ≡ "approve"
        → Approves id persona
        → HasPermission persona def_type id perm
    view_acl :
        def_type ≡ "acl_document"
        → perm ≡ "view"
        → Views id persona
        → HasPermission persona def_type id perm
    edit_acl :
        def_type ≡ "acl_document"
        → perm ≡ "edit"
        → Edits id persona
        → HasPermission persona def_type id perm
