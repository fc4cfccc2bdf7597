-- ===== src/Seed/Generator/Running/Facts.antt =====
-- The records of every phase, for a generator that `BuildBasis` has filled.
use test_permission.Base.{ℕ, String, List, [], ◌∷◌, ◌++◌, ◌≡◌, sym, subst, Memᴰ}
use test_permission.Base.Members.{not-mem-nil}
use test_permission.Seed.Types.{Fact}
use test_permission.Seed.Checkpoints.{all_phases}
use test_permission.Seed.Program.{Call, begin_phase, accept, end_phase}
use test_permission.Seed.Program.Laws.{Done, Emits}
use test_permission.Seed.Program.Picks.{Emits-calls}
use test_permission.Seed.Program.Running.{Random, stream, facts_of}
use test_permission.Seed.Generator.{Generator}
use test_permission.Seed.Generator.Built.{IsBuilt}
use test_permission.Seed.Generator.Basis.Laws.{BasisCall, stream_basis-Emits}
use test_permission.Seed.Generator.Grants.Laws.{IsGrant, IsAssignment, RbacCall, stream_rbac-Emits}
use test_permission.Seed.Generator.Folders.Laws.{IsFolder, IsDoc, IsMembership, RebacCall}
use test_permission.Seed.Generator.Folders.Streaming.{stream_rebac-Emits}
use test_permission.Seed.Generator.Attributes.Laws.{IsAbacDoc, AbacCall, stream_abac-Emits}
use test_permission.Seed.Generator.Orders.Laws.{
  IsPolicy, IsNumbered, IsPolicyHolder, IsOrder, PbacCall,
}
use test_permission.Seed.Generator.Orders.Streaming.{stream_pbac-Emits}
use test_permission.Seed.Generator.Sharing.Laws.{IsAclDoc, IsEntry, AclCall, stream_acl-Emits}
use test_permission.Seed.Generator.Running.{stream_of, rng}

-- What the record is, in terms of the generator's own tables.
abbrev pub Consistent : (ℕ → ℕ → String) → Generator → Fact → Type 0
Consistent padded g f = elim f [
  | Fact.org o ↦ Memᴰ o g.orgs
  | Fact.division d ↦ Memᴰ d g.divisions
  | Fact.role ro ↦ Memᴰ ro g.roles
  | Fact.account a ↦ Memᴰ a g.accounts
  | Fact.persona p ↦ Memᴰ p g.personas
  | Fact.resource res ↦ Memᴰ res g.resources
  | Fact.persona_role pr ↦ IsAssignment g pr
  | Fact.role_grant gr ↦ IsGrant g gr
  | Fact.folder f ↦ IsFolder padded g f
  | Fact.rebac_doc d ↦ IsDoc padded g d
  | Fact.membership m ↦ IsMembership padded g m
  | Fact.abac_doc d ↦ IsAbacDoc g d
  | Fact.pbac_policy p ↦ IsPolicy g p × IsNumbered padded g p.id
  | Fact.pbac_assignment pa ↦ IsPolicyHolder g pa × IsNumbered padded g pa.policy_id
  | Fact.purchase_order po ↦ IsOrder g po × IsNumbered padded g po.policy_id
  | Fact.acl_doc d ↦ IsAclDoc g d
  | Fact.acl_entry e ↦ IsEntry g e
]

abbrev pub ConsistentCall : (ℕ → ℕ → String) → Generator → Call → Type 0
ConsistentCall padded g (begin_phase name total) = Unit
ConsistentCall padded g (accept f) = Consistent padded g f
ConsistentCall padded g (end_phase name) = Unit

module _ (padded : ℕ → ℕ → String) (g : Generator) where
  of_basis : (c : Call) → BasisCall g c → ConsistentCall padded g c
  of_basis (begin_phase name total) h = tt
  of_basis (end_phase name) h = tt
  of_basis (accept (Fact.org o)) h = h
  of_basis (accept (Fact.division d)) h = h
  of_basis (accept (Fact.role ro)) h = h
  of_basis (accept (Fact.account a)) h = h
  of_basis (accept (Fact.persona p)) h = h
  of_basis (accept (Fact.resource res)) h = h
  of_basis (accept _) h = absurd h

  of_rbac : (c : Call) → RbacCall g c → ConsistentCall padded g c
  of_rbac (begin_phase name total) h = tt
  of_rbac (end_phase name) h = tt
  of_rbac (accept (Fact.role_grant gr)) h = h
  of_rbac (accept (Fact.persona_role pr)) h = h
  of_rbac (accept _) h = absurd h

  of_rebac : (c : Call) → RebacCall padded g c → ConsistentCall padded g c
  of_rebac (begin_phase name total) h = tt
  of_rebac (end_phase name) h = tt
  of_rebac (accept (Fact.folder f)) h = h
  of_rebac (accept (Fact.rebac_doc d)) h = h
  of_rebac (accept (Fact.membership m)) h = h
  of_rebac (accept _) h = absurd h

  of_abac : (c : Call) → AbacCall g c → ConsistentCall padded g c
  of_abac (begin_phase name total) h = tt
  of_abac (end_phase name) h = tt
  of_abac (accept (Fact.abac_doc d)) h = h
  of_abac (accept _) h = absurd h

  of_pbac : (c : Call) → PbacCall padded g c → ConsistentCall padded g c
  of_pbac (begin_phase name total) h = tt
  of_pbac (end_phase name) h = tt
  of_pbac (accept (Fact.pbac_policy p)) h = h
  of_pbac (accept (Fact.pbac_assignment pa)) h = h
  of_pbac (accept (Fact.purchase_order po)) h = h
  of_pbac (accept _) h = absurd h

  of_acl : (c : Call) → AclCall g c → ConsistentCall padded g c
  of_acl (begin_phase name total) h = tt
  of_acl (end_phase name) h = tt
  of_acl (accept (Fact.acl_doc d)) h = h
  of_acl (accept (Fact.acl_entry e)) h = h
  of_acl (accept _) h = absurd h

module _ (padded : ℕ → ℕ → String) (fuel : ℕ) (g : Generator) (built : IsBuilt g) where
  at_phase :
      (P : Call → Type 0)
      → ((c : Call) → P c → ConsistentCall padded g c)
      → (name phase : String) → phase ≡ name
      → Emits P Done (stream_of padded fuel g name)
      → Emits (ConsistentCall padded g) Done (stream_of padded fuel g phase)
  at_phase P f name phase e h =
      subst (λ ph. Emits (ConsistentCall padded g) Done (stream_of padded fuel g ph)) (sym e)
        (Emits-calls P (ConsistentCall padded g) f Done (stream_of padded fuel g name) h)

  pub stream_of-Emits :
      (phase : String)
      → Memᴰ phase all_phases
      → Emits (ConsistentCall padded g) Done (stream_of padded fuel g phase)
  unfolding stream_of
  stream_of-Emits phase (Memᴰ.head e) =
      at_phase (BasisCall g) (of_basis padded g) "basis" phase e (stream_basis-Emits g)
  stream_of-Emits phase (Memᴰ.tail (Memᴰ.head e)) =
      at_phase (RbacCall g) (of_rbac padded g) "rbac" phase e (stream_rbac-Emits fuel g built)
  stream_of-Emits phase (Memᴰ.tail (Memᴰ.tail (Memᴰ.head e))) =
      at_phase (RebacCall padded g) (of_rebac padded g) "rebac" phase e
        (stream_rebac-Emits padded g built)
  stream_of-Emits phase (Memᴰ.tail (Memᴰ.tail (Memᴰ.tail (Memᴰ.head e)))) =
      at_phase (AbacCall g) (of_abac padded g) "abac" phase e (stream_abac-Emits padded g built)
  stream_of-Emits phase (Memᴰ.tail (Memᴰ.tail (Memᴰ.tail (Memᴰ.tail (Memᴰ.head e))))) =
      at_phase (PbacCall padded g) (of_pbac padded g) "pbac" phase e
        (stream_pbac-Emits padded fuel g built)
  stream_of-Emits phase (Memᴰ.tail (Memᴰ.tail (Memᴰ.tail (Memᴰ.tail (Memᴰ.tail (Memᴰ.head e)))))) =
      at_phase (AclCall g) (of_acl padded g) "acl" phase e (stream_acl-Emits padded fuel g built)
  stream_of-Emits phase (Memᴰ.tail (Memᴰ.tail (Memᴰ.tail (Memᴰ.tail (Memᴰ.tail (Memᴰ.tail m)))))) =
      absurd (not-mem-nil m)

-- The records of some phases, in the order in which a sink gets them.
unfoldable pub dataset_of : (ℕ → ℕ → String) → ℕ → Random → Generator → List String → List Fact
dataset_of padded fuel R g [] = []
dataset_of padded fuel R g (phase ∷ phases) =
    facts_of (stream R (stream_of padded fuel g phase) (rng R g phase)).0
    ++ dataset_of padded fuel R g phases
