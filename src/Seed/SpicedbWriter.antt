-- ===== src/Seed/SpicedbWriter.antt =====
-- internal/seed/writer_spicedb.go: the batching sink in front of SpiceDB. A write request that is
-- sent is a value; which ones the server accepts is a parameter.
pub mod Dedupe
pub mod Laws
pub mod Phases
use Prim.Native.String.{◌++◌ as str_append}
use test_permission.Base.{
  Bool, true, false, ℕ, zero, suc, ◌+◌, String, List, [], ◌∷◌, ◌++◌, if◌then◌else◌, ◌==◌, leb,
  length, contains,
}
use test_permission.Base.Fallible.{Fallible, ok, err, ◌>>=◌, wrapping}
use test_permission.Seed.Types.{Fact, Org, Sink}
use test_permission.Seed.Relationships.{Relationship, CaveatContext, rels_of}

-- `log` holds the write requests that were sent, the last one first: the relationships that each
-- touches.
pub record Writer : Type 0 where
  pub batch : ℕ
  pub buf : List Relationship
  pub done : ℕ
  pub log : List (List Relationship)

unfoldable pub new_writer : ℕ → Writer
new_writer batch = record { batch = batch; buf = []; done = 0; log = [] }

abbrev sep : String → String → String
sep a b = str_append a (str_append "\0" b)

-- The identity of a relationship within one request, its caveat left out.
unfoldable pub key : Relationship → String
key r = sep r.res_type (sep r.res_id (sep r.relation (sep r.subj_type (sep r.subj_id r.subj_rel))))

-- The loop of `flush`: each relationship whose key was not seen before.
unfoldable pub dedupe : List String → List Relationship → List Relationship
unfolding contains
dedupe seen [] = []
dedupe seen (r ∷ rs) =
    let fresh = r ∷ dedupe (key r ∷ seen) rs in
    let rest = dedupe seen rs in if contains seen (key r) then rest else fresh

-- A root organization has no edge, and counts as progress all the same.
unfoldable pub count_root : Fact → Writer → Writer
count_root (Fact.org o) w = if o.parent_id == "" then record w { done = w.done + 1 } else w
count_root _ w = w

unfoldable pub begin_phase : String → ℕ → Writer → Fallible Writer
begin_phase phase total w = ok (record w { done = 0 })

module _ (write : List Relationship → Fallible (Unit {0})) where
  unfoldable pub send : List Relationship → Writer → Fallible Writer
  unfolding dedupe
  send batch w = do
    done ← wrapping "write relationships" (write (dedupe [] batch))
    ok (record w { buf = []; log = dedupe [] batch ∷ w.log })

  unfoldable pub flush_batch : List Relationship → Writer → Fallible Writer
  unfolding send
  flush_batch [] w = ok w
  flush_batch (r ∷ rs) w = send (r ∷ rs) w

  unfoldable pub flush : Writer → Fallible Writer
  unfolding flush_batch
  flush w = flush_batch w.buf w

  unfoldable pub add : Relationship → Writer → Fallible Writer
  unfolding flush
  add r w =
      let w' : Writer = record w { buf = w.buf ++ r ∷ []; done = w.done + 1 } in
      if leb w.batch (length (w.buf ++ r ∷ [])) then flush w' else ok w'

  -- The calls of `add` for one record.
  unfoldable pub add_all : List Relationship → Writer → Fallible Writer
  unfolding add
  add_all [] w = ok w
  add_all (r ∷ rs) w = do w' ← add r w; add_all rs w'

  unfoldable pub accept : (CaveatContext → Fallible CaveatContext) → Fact → Writer → Fallible Writer
  unfolding rels_of add_all count_root
  accept new_struct f w = do rs ← rels_of new_struct f; add_all rs (count_root f w)

  unfoldable pub end_phase : String → Writer → Fallible Writer
  unfolding flush
  end_phase phase w = flush w

  abbrev pub sink : (CaveatContext → Fallible CaveatContext) → Sink Writer
  sink new_struct = record {
    begin_phase = begin_phase;
    end_phase = end_phase;
    accept = accept new_struct;
  }
