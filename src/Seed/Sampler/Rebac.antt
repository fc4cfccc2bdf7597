-- ===== src/Seed/Sampler/Rebac.antt =====
-- internal/seed/sampler.go `Folder` and `RebacDoc`.
use test_permission.Base.{
  true, false, ℕ, zero, suc, ◌*◌, String, List, [], ◌∷◌, length, lookup, insert,
}
use test_permission.Seed.Types.{Scale, Folder, RebacDoc, Persona}
use test_permission.Seed.Program.{Program, done, ◌>>=◌, at, choose}
use test_permission.Seed.Generator.{Generator}
use test_permission.Seed.Generator.Registry.{org_ancestors}
use test_permission.Seed.Sampler.{
  Tuple, Sampler, number_of, need, add, skips, random_persona_other_root,
}

unfoldable pub folder : Folder → Sampler → Sampler
unfolding lookup insert
folder f s = record s {
  folder_org = insert f.id (number_of f.org_id (Generator.org_idx s.gen)) s.folder_org;
}

abbrev pub rebac_tuple : String → RebacDoc → String → Tuple
rebac_tuple principal d expected = record {
  model = "rebac";
  principal = principal;
  action = "doc.view";
  resource_type = "RebacDocument";
  resource = d.id;
  context = [];
  expected = expected;
}

-- The loop of at most 50 tries for a persona of the chain.
unfoldable pub try_ancestors : RebacDoc → List ℕ → Sampler → ℕ → Program Sampler
try_ancestors d anc s zero = done s
try_ancestors d anc s (suc tries) = do
  ai ← choose anc
  personas ← at (Generator.personas_by_org s.gen) ai
  elim personas [
    | [] ↦ try_ancestors d anc s tries
    | first ∷ others ↦ do
      pi ← choose (first ∷ others)
      p ← at (Generator.personas s.gen) pi
      done (add (rebac_tuple (Persona.id p) d "allow") s)
  ]

unfoldable pub sample_doc : ℕ → RebacDoc → Sampler → Program Sampler
unfolding lookup
sample_doc fuel d s = do
  let oi : ℕ = number_of d.folder_id s.folder_org
  anc ← org_ancestors (Generator.parent_of s.gen) (suc oi) oi
  tried ← try_ancestors d anc s 50
  root ← at (Generator.root_of s.gen) oi
  other ← random_persona_other_root s root fuel
  done (add (rebac_tuple other d "deny") tried)

unfoldable pub rebac_doc : ℕ → RebacDoc → Sampler → Program Sampler
rebac_doc fuel d s =
    let seen : Sampler = record s { docs_seen = suc s.docs_seen } in
    elim (need seen "rebac") [
      | false ↦ done seen
      | true ↦ do
        skipped ← skips seen (
            length (Generator.orgs seen.gen)
            * Scale.folders_per_org (Generator.scale seen.gen)
            * Scale.docs_per_folder (Generator.scale seen.gen))
        elim skipped [ true ↦ done seen | false ↦ sample_doc fuel d seen ]
    ]
