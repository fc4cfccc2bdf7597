-- ===== src/Seed/Types.antt =====
-- internal/seed/types.go: the scales, the records of the canonical stream, and the sink interface.
use test_permission.Base.{Bool, ℕ, String, List}
use test_permission.Base.Int.{ℤ}
use test_permission.Base.Fallible.{Fallible}

pub record Scale : Type 0 where
  pub roots : ℕ
  pub org_nodes : ℕ
  pub max_depth : ℕ
  pub div_custom_max : ℕ
  pub role_custom_max : ℕ
  pub accounts : ℕ
  pub personas : ℕ
  pub grants_per_role : ℕ
  pub folders_per_org : ℕ
  pub docs_per_folder : ℕ
  pub manager_edges : ℕ
  pub abac_docs : ℕ
  pub policies_per_root : ℕ
  pub purchase_orders : ℕ
  pub acl_docs : ℕ
  pub acl_entries_min : ℕ
  pub acl_entries_max : ℕ
  pub tuples_per_model : ℕ

abbrev pub full_scale : Scale
full_scale = record {
  roots = 2_500;
  org_nodes = 40_000;
  max_depth = 6;
  div_custom_max = 4;
  role_custom_max = 7;
  accounts = 750_000;
  personas = 1_200_000;
  grants_per_role = 12;
  folders_per_org = 9;
  docs_per_folder = 5;
  manager_edges = 100_000;
  abac_docs = 3_000_000;
  policies_per_root = 40;
  purchase_orders = 800_000;
  acl_docs = 1_000_000;
  acl_entries_min = 2;
  acl_entries_max = 4;
  tuples_per_model = 10_000;
}

abbrev pub test_scale : Scale
test_scale = record {
  roots = 5;
  org_nodes = 40;
  max_depth = 4;
  div_custom_max = 4;
  role_custom_max = 5;
  accounts = 120;
  personas = 200;
  grants_per_role = 8;
  folders_per_org = 3;
  docs_per_folder = 3;
  manager_edges = 20;
  abac_docs = 2_000;
  policies_per_root = 5;
  purchase_orders = 800;
  acl_docs = 500;
  acl_entries_min = 2;
  acl_entries_max = 4;
  tuples_per_model = 200;
}

-- An empty `parent_id`, `shared_org_id` or `page_id` stands for none.
pub record Org : Type 0 where
  pub id : String
  pub parent_id : String
  pub root_id : String
  pub name : String
  pub depth : ℕ
  pub region : String

pub record Division : Type 0 where
  pub id : String
  pub org_id : String
  pub key : String
  pub name : String
  pub is_default : Bool

pub record Role : Type 0 where
  pub id : String
  pub org_id : String
  pub key : String
  pub name : String
  pub is_default : Bool

pub record Account : Type 0 where
  pub id : String
  pub email : String
  pub name : String

pub record Persona : Type 0 where
  pub id : String
  pub account_id : String
  pub org_id : String
  pub division_id : String
  pub clearance : ℤ
  pub employment_type : String
  pub region : String

pub record RegistryResource : Type 0 where
  pub id : String
  pub kind : String
  pub action : String
  pub service_key : String
  pub method : String
  pub path : String
  pub route : String
  pub page_id : String

pub record PersonaRole : Type 0 where
  pub persona_id : String
  pub role_id : String
  pub org_id : String

pub record RoleGrant : Type 0 where
  pub role_id : String
  pub resource_type : String
  pub resource_id : String
  pub action : String

pub record Folder : Type 0 where
  pub id : String
  pub org_id : String
  pub parent_id : String
  pub shared_org_id : String

pub record RebacDoc : Type 0 where
  pub id : String
  pub folder_id : String
  pub owner_persona_id : String

pub record UnitMembership : Type 0 where
  pub persona_id : String
  pub org_id : String
  pub relation : String

pub record AbacDoc : Type 0 where
  pub id : String
  pub org_id : String
  pub division_key : String
  pub classification : ℤ
  pub status : String
  pub region : String

pub record PbacPolicy : Type 0 where
  pub id : String
  pub org_id : String
  pub name : String
  pub division_key : String
  pub min_amount : ℤ
  pub max_amount : ℤ
  pub regions : List String
  pub active : Bool

pub record PbacAssignment : Type 0 where
  pub persona_id : String
  pub policy_id : String

pub record PurchaseOrder : Type 0 where
  pub id : String
  pub org_id : String
  pub policy_id : String
  pub division_key : String
  pub region : String
  pub policy_active : Bool
  pub policy_min_amount : ℤ
  pub policy_max_amount : ℤ
  pub policy_regions : List String

pub record AclDoc : Type 0 where
  pub id : String
  pub org_id : String

pub record AclEntry : Type 0 where
  pub resource_id : String
  pub persona_id : String
  pub action : String

-- One call of a sink's record methods.
pub data Fact : Type 0 where
  org : Org → Fact
  division : Division → Fact
  role : Role → Fact
  account : Account → Fact
  persona : Persona → Fact
  resource : RegistryResource → Fact
  persona_role : PersonaRole → Fact
  role_grant : RoleGrant → Fact
  folder : Folder → Fact
  rebac_doc : RebacDoc → Fact
  membership : UnitMembership → Fact
  abac_doc : AbacDoc → Fact
  pbac_policy : PbacPolicy → Fact
  pbac_assignment : PbacAssignment → Fact
  purchase_order : PurchaseOrder → Fact
  acl_doc : AclDoc → Fact
  acl_entry : AclEntry → Fact

-- A consumer of the stream, over its own state.
pub record Sink (S : Type 0) : Type 0 where
  pub begin_phase : String → ℕ → S → Fallible S
  pub end_phase : String → S → Fallible S
  pub accept : Fact → S → Fallible S
