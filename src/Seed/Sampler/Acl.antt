-- ===== src/Seed/Sampler/Acl.antt =====
-- internal/seed/sampler.go `AclDoc`, `AclEntry` and `flushACLDoc`.
use Prim.Native.String.{◌++◌ as str_append}
use test_permission.Base.{true, false, ℕ, zero, suc, String, [], ◌∷◌, ◌++◌, ◌==◌, any}
use test_permission.Seed.Types.{Scale, AclDoc, AclEntry, Persona}
use test_permission.Seed.Program.{Program, done, ◌>>=◌, choose}
use test_permission.Seed.Generator.{Generator}
use test_permission.Seed.Sampler.{Tuple, Sampler, need, add, skips}

abbrev pub acl_tuple : String → String → String → String → Tuple
acl_tuple principal action resource expected = record {
  model = "acl";
  principal = principal;
  action = action;
  resource_type = "AclDocument";
  resource = resource;
  context = [];
  expected = expected;
}

-- The loop of at most 50 tries for a persona with no entry.
unfoldable pub try_strangers : Sampler → ℕ → Program Sampler
try_strangers s zero = done s
try_strangers s (suc tries) = do
  p ← choose (Generator.personas s.gen)
  elim (any (λ en. AclEntry.persona_id en == Persona.id p) s.acl_entries) [
    | true ↦ try_strangers s tries
    | false ↦ done (add (acl_tuple (Persona.id p) "acl.view" (AclDoc.id s.acl_cur) "deny") s)
  ]

unfoldable pub sample_entry : Sampler → Program Sampler
sample_entry s = do
  e ← choose s.acl_entries
  let allowed : Sampler =
      add
        (acl_tuple (AclEntry.persona_id e) (str_append "acl." (AclEntry.action e))
          (AclDoc.id s.acl_cur) "allow")
        s
  elim (AclEntry.action e == "view") [
    | true ↦
        done
          (add (acl_tuple (AclEntry.persona_id e) "acl.edit" (AclDoc.id s.acl_cur) "deny") allowed)
    | false ↦ try_strangers allowed 50
  ]

unfoldable pub flush_acl_doc : Sampler → Program Sampler
flush_acl_doc s = elim (AclDoc.id s.acl_cur == "") [
  | true ↦ done s
  | false ↦ elim s.acl_entries [
    | [] ↦ done s
    | _ ∷ _ ↦ elim (need s "acl") [
      | false ↦ done s
      | true ↦ do
        skipped ← skips s (Scale.acl_docs (Generator.scale s.gen))
        elim skipped [ true ↦ done s | false ↦ sample_entry s ]
    ]
  ]
]

unfoldable pub acl_doc : AclDoc → Sampler → Program Sampler
acl_doc d s = do flushed ← flush_acl_doc s; done (record flushed { acl_cur = d; acl_entries = [] })

abbrev pub acl_entry : AclEntry → Sampler → Sampler
acl_entry e s = record s { acl_entries = s.acl_entries ++ (e ∷ []) }
