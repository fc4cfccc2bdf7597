-- ===== src/Seed/Sampler/Handlers.antt =====
-- internal/seed/sampler.go: the methods of the sink. The embedded `NopSink` takes the other records.
use test_permission.Base.{ℕ, String, ◌==◌, if◌then◌else◌}
use test_permission.Seed.Types.{Fact}
use test_permission.Seed.Program.{Program, done}
use test_permission.Seed.Sampler.{Sampler}
use test_permission.Seed.Sampler.Rbac.{role_grant, persona_role, flush_rbac_persona}
use test_permission.Seed.Sampler.Rebac.{folder, rebac_doc}
use test_permission.Seed.Sampler.Abac.{abac_doc}
use test_permission.Seed.Sampler.Pbac.{pbac_assignment, purchase_order}
use test_permission.Seed.Sampler.Acl.{acl_doc, acl_entry, flush_acl_doc}

unfoldable pub sample : ℕ → Fact → Sampler → Program Sampler
sample fuel (Fact.role_grant g) s = done (role_grant g s)
sample fuel (Fact.persona_role pr) s = persona_role pr s
sample fuel (Fact.folder f) s = done (folder f s)
sample fuel (Fact.rebac_doc d) s = rebac_doc fuel d s
sample fuel (Fact.abac_doc d) s = abac_doc d s
sample fuel (Fact.pbac_assignment a) s = done (pbac_assignment a s)
sample fuel (Fact.purchase_order po) s = purchase_order fuel po s
sample fuel (Fact.acl_doc d) s = acl_doc d s
sample fuel (Fact.acl_entry e) s = done (acl_entry e s)
sample fuel _ s = done s

unfoldable pub end_phase : String → Sampler → Program Sampler
end_phase phase s =
    if phase == "rbac"
    then flush_rbac_persona s
    else if phase == "acl"
    then flush_acl_doc s
    else done s
