-- ===== src/Seed/SpicedbWriter/Phases.antt =====
-- A whole phase of the SpiceDB writer.
use mathlib.Core.List.{append_assoc, append-nil}
use test_permission.Base.{
  ℕ, ◌<◌, String, List, [], ◌∷◌, ◌++◌, ◌≡◌, ◌==◌, refl, subst, inl, inr, arith, Bool-cases, Memᴰ,
  All,
}
use test_permission.Base.Members.{not-mem-nil}
use test_permission.Base.Fallible.{Fallible, ok, err, ◌>>=◌}
use test_permission.Seed.Types.{Fact}
use test_permission.Seed.Relationships.{Relationship, CaveatContext, rels_of}
use test_permission.Seed.SpicedbWriter.{Writer, new_writer, flush, count_root, accept, end_phase}
use test_permission.Seed.SpicedbWriter.Laws.{
  Sent, IsRequest, Holds, add_all-Holds, after_send, after_send-Holds, flush_batch-eq,
}

-- The relationships of a record that converts.
abbrev pub converted : Fallible (List Relationship) → List Relationship
converted (ok rs) = rs
converted (err e) = []

-- The relationships that a list of records stands for.
unfoldable pub rels_given : (CaveatContext → Fallible CaveatContext) → List Fact → List Relationship
rels_given new_struct [] = []
rels_given new_struct (f ∷ fs) = converted (rels_of new_struct f) ++ rels_given new_struct fs

fresh-Holds : (batch : ℕ) → 0 < batch → Holds [] (new_writer batch)
unfolding new_writer
fresh-Holds batch positive = record {
  covers = λ r m. absurd (not-mem-nil m);
  requests = tt;
  genuine = λ r m. absurd (not-mem-nil m);
  room = positive;
}

count_root-Holds :
    (f : Fact) (given : List Relationship) (w : Writer)
    → Holds given w
    → Holds given (count_root f w) × ((count_root f w).batch ≡ w.batch)
unfolding count_root
count_root-Holds (Fact.org o) given w h = elim (Bool-cases (o.parent_id == "")) [
  | inl root ↦ rw root (
    record { covers = h.covers; requests = h.requests; genuine = h.genuine; room = h.room },
    refl,
  )
  | inr child ↦ rw child (h, refl)
]
count_root-Holds _ given w h = (h, refl)

module _ (write : List Relationship → Fallible (Unit {0}))
    (accepts : (batch : List Relationship) → write batch ≡ ok tt)
    (new_struct : CaveatContext → Fallible CaveatContext) where
  -- The loop of a phase over its records.
  unfoldable pub accept_all : List Fact → Writer → Fallible Writer
  accept_all [] w = ok w
  accept_all (f ∷ fs) w = do w' ← accept write new_struct f w; accept_all fs w'

  -- The caveat context of a record, if it has one, becomes a struct.
  abbrev pub IsConverted : Fact → Type 0
  IsConverted f = (rs : List Relationship) × (rels_of new_struct f ≡ ok rs)

  accept_all-Holds :
      (fs : List Fact) (given : List Relationship) (w : Writer)
      → All IsConverted fs
      → Holds given w
      → (w' : Writer) × (accept_all fs w ≡ ok w')
        × Holds (given ++ rels_given new_struct fs) w'
        × (w'.batch ≡ w.batch)
  unfolding accept_all accept rels_given
  accept_all-Holds [] given w _ h = (w, refl, rw append-nil h, refl)
  accept_all-Holds (f ∷ fs) given w ((rs, e), later) h =
      let (h', same) = count_root-Holds f given w h in
      let (v, added, k, same') = add_all-Holds write accepts given rs (count_root f w) h' in
      let (w', e', k', same'') = accept_all-Holds fs (given ++ rs) v later k in
      (
        w',
        rw (e, added) e',
        rw e (subst (λ l. Holds l w') (append_assoc given rs (rels_given new_struct fs)) k'),
        cc (same, same', same''),
      )

  end_phase-Holds :
      (phase : String) (given : List Relationship) (w : Writer)
      → Holds given w
      → (w' : Writer) × (end_phase write phase w ≡ ok w')
        × (w'.buf ≡ [])
        × Holds given w'
        × (w'.batch ≡ w.batch)
  unfolding end_phase flush
  end_phase-Holds phase given w h = at w.buf refl
    where
      at :
          (rs : List Relationship)
          → w.buf ≡ rs
          → (w' : Writer) × (end_phase write phase w ≡ ok w')
            × (w'.buf ≡ [])
            × Holds given w'
            × (w'.batch ≡ w.batch)
      at [] e = (w, rw e refl, e, h, refl)
      at (r ∷ rs) e = (
        after_send w.buf w,
        flush_batch-eq write w.buf w accepts (rw e (omega arith)),
        refl,
        after_send-Holds given w.buf w h.covers h.requests h.genuine (omega (arith, h.room))
            (omega (arith, h.room)),
        refl,
      )

  -- When the server accepts every write and every caveat context becomes a struct, a fresh writer with a positive batch size takes all records of a phase and ends it without an error. Then the buffer is empty; for every relationship that the records stand for, one with the same identity has been sent, which is the resource type and id, the relation and the subject type, id and relation joined by NULs; and every request holds at most a batch of relationships, no two with the same identity, each of them one that the records stand for.
  pub spicedb_phase_runs :
      (phase : String) (batch : ℕ) (fs : List Fact)
      → 0 < batch
      → All IsConverted fs
      → (w w' : Writer) × (accept_all fs (new_writer batch) ≡ ok w)
        × (end_phase write phase w ≡ ok w')
        × (w'.buf ≡ [])
        × ((r : Relationship) → Memᴰ r (rels_given new_struct fs) → Sent r w'.log)
        × All (IsRequest batch (rels_given new_struct fs)) w'.log
  unfolding new_writer
  spicedb_phase_runs phase batch fs positive known =
      let (w, taken, h, same) =
        accept_all-Holds fs [] (new_writer batch) known (fresh-Holds batch positive) in
      let (w', ended, empty, h', same') = end_phase-Holds phase (rels_given new_struct fs) w h in
      let batches : w'.batch ≡ batch = cc (same, same') in
      (
        w,
        w',
        taken,
        ended,
        empty,
        λ r m. elim (h'.covers r m) [ inl s ↦ s | inr b ↦ absurd (not-mem-nil (rw empty at b)) ],
        subst (λ b. All (IsRequest b (rels_given new_struct fs)) w'.log) batches h'.requests,
      )
