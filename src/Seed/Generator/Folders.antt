-- ===== src/Seed/Generator/Folders.antt =====
-- internal/seed/generator.go `StreamReBAC`: folders, their documents, and the memberships.
pub mod Laws
pub mod Streaming
use test_permission.Base.{
  true, false, ℕ, zero, suc, ◌+◌, ◌*◌, String, List, [], ◌∷◌, length, ltb, nat_eq,
}
use test_permission.Seed.Types.{Scale, Org, Persona, Folder, RebacDoc, UnitMembership, Fact}
use test_permission.Seed.Program.{
  Program, done, ◌>>=◌, ◌>>◌, int_n, at, choose, emit, fold_each, fold_range, for_range,
}
use test_permission.Seed.Generator.{Generator, indexed_from, id_of}
use test_permission.Seed.Generator.Registry.{org_ancestors}
use test_permission.Seed.Generator.Basis.{begin, end}

module _ (padded : ℕ → ℕ → String) where
  abbrev pub folder_id : ℕ → String
  folder_id n = id_of padded "fld-" 6 n

  -- The folder that the k-th folder of an organization nests under, if any.
  unfoldable pub nest : ℕ → ℕ → Program String
  nest first k = elim (ltb 0 k) [
    | true ↦ do
      coin ← int_n 2
      elim (nat_eq coin 0) [
        | true ↦ int_n k >>= λ j. done (folder_id (first + j))
        | false ↦ done ""
      ]
    | false ↦ done ""
  ]

  module _ (g : Generator) where
    -- The organization that the folder is also shared with, if any.
    unfoldable pub share : ℕ → Program String
    share oi = do
      y ← int_n 20
      elim (nat_eq y 0) [
        | true ↦ do
          root ← at g.root_ordinal oi
          cands ← at g.nodes_by_root root
          si ← choose cands
          elim (nat_eq si oi) [
            | true ↦ done ""
            | false ↦ at g.orgs si >>= λ other. done (Org.id other)
          ]
        | false ↦ done ""
      ]

    -- The state of the two loops is `folderSeq`.
    unfoldable pub make_folder : ℕ × Org → ℕ → ℕ → ℕ → Program ℕ
    make_folder (oi, o) first k folder_seq = do
      parent ← nest first k
      shared ← share oi
      emit (
          Fact.folder (record {
            id = folder_id folder_seq;
            org_id = Org.id o;
            parent_id = parent;
            shared_org_id = shared;
          }))
      done (suc folder_seq)

    unfoldable pub folders_of : ℕ × Org → ℕ → Program ℕ
    folders_of node folder_seq =
        fold_range (make_folder node folder_seq) 0 (Scale.folders_per_org g.scale) folder_seq

    -- The state of these two is `docSeq`.
    unfoldable pub make_doc : ℕ → ℕ → ℕ → Program ℕ
    make_doc fi k doc_seq = do
      owner ← choose g.personas
      emit (
          Fact.rebac_doc (record {
            id = id_of padded "rdoc-" 6 doc_seq;
            folder_id = folder_id fi;
            owner_persona_id = Persona.id owner;
          }))
      done (suc doc_seq)

    unfoldable pub docs_of : ℕ → ℕ → Program ℕ
    docs_of fi doc_seq = fold_range (make_doc fi) 0 (Scale.docs_per_folder g.scale) doc_seq

    unfoldable pub join : ℕ → Program (Unit {0})
    join pi = do
      p ← at g.personas pi
      emit (
          Fact.membership
            (record { persona_id = Persona.id p; org_id = Persona.org_id p; relation = "member" }))

    -- The chain of ancestors has at most one entry for each organization up to `cand`.
    unfoldable pub make_manager : ℕ → Program (Unit {0})
    make_manager k = do
      pi ← int_n (length g.personas)
      cand ← at g.persona_org pi
      _ ← at g.root_ordinal cand
      anc ← org_ancestors g.parent_of (suc cand) cand
      target ← choose anc
      p ← at g.personas pi
      o ← at g.orgs target
      emit (
          Fact.membership
            (record { persona_id = Persona.id p; org_id = Org.id o; relation = "manager" }))

    abbrev pub n_folders : ℕ
    n_folders = length g.orgs * Scale.folders_per_org g.scale

    unfoldable pub stream_rebac : Program (Unit {0})
    stream_rebac = do
      begin "rebac" (
          n_folders
          + n_folders * Scale.docs_per_folder g.scale
          + length g.personas
          + Scale.manager_edges g.scale)
      _ ← fold_each folders_of (indexed_from 0 g.orgs) 0
      _ ← fold_range docs_of 0 n_folders 0
      for_range join (length g.personas)
      for_range make_manager (Scale.manager_edges g.scale)
      end "rebac"
