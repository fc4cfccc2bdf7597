-- ===== src/Seed/SpicedbWriter/Laws.antt =====
-- What the writer has sent, against what it was given.
use mathlib.Core.List.{append_assoc, append-nil}
use test_permission.Base.{
  ℕ, ◌+◌, ◌≤◌, ◌<◌, List, [], ◌∷◌, ◌++◌, ◌≡◌, refl, subst, ◌⊎◌, inl, inr, arith, Bool-cases, Memᴰ,
  length, leb, length-append, All,
}
use test_permission.Base.Members.{mem-append, mem-append_left, mem-append_right, not-mem-nil}
use test_permission.Base.Fallible.{Fallible, ok}
use test_permission.Seed.Relationships.{Relationship}
use test_permission.Seed.SpicedbWriter.{Writer, dedupe, send, flush_batch, flush, add, add_all}
use test_permission.Seed.SpicedbWriter.Dedupe.{
  HasDistinctKeys, Covered, dedupe-HasDistinctKeys, mem_of_mem-dedupe, dedupe-Covered_all,
  length-dedupe-le,
}

-- A relationship, or another with its identity, has been sent.
pub data Sent (r : Relationship) : List (List Relationship) → Type 0 where
  now :
      {request : List Relationship} {log : List (List Relationship)}
      → Covered r request
      → Sent r (request ∷ log)
  before :
      {request : List Relationship} {log : List (List Relationship)}
      → Sent r log
      → Sent r (request ∷ log)

-- A request that the server takes: at most `batch` relationships, with distinct identities, each of them given to the writer.
pub record IsRequest (batch : ℕ) (given request : List Relationship) : Type 0 where
  pub bounded : length request ≤ batch
  pub distinct : HasDistinctKeys request
  pub genuine : (r : Relationship) → Memᴰ r request → Memᴰ r given

-- What holds of a writer that was given some relationships.
pub record Holds (given : List Relationship) (w : Writer) : Type 0 where
  pub covers : (r : Relationship) → Memᴰ r given → Sent r w.log ⊎ Memᴰ r w.buf
  pub requests : All (IsRequest w.batch given) w.log
  pub genuine : (r : Relationship) → Memᴰ r w.buf → Memᴰ r given
  pub room : length w.buf < w.batch

widen :
    (batch : ℕ) (given : List Relationship) (x : Relationship) (log : List (List Relationship))
    → All (IsRequest batch given) log
    → All (IsRequest batch (given ++ x ∷ [])) log
widen batch given x [] h = tt
widen batch given x (request ∷ log) (q, h) = (
  record {
    bounded = q.bounded;
    distinct = q.distinct;
    genuine = λ r m. mem-append_left (x ∷ []) (q.genuine r m);
  },
  widen batch given x log h,
)

-- The writer as `send` leaves it.
abbrev pub after_send : List Relationship → Writer → Writer
after_send rs w = record w { buf = []; log = dedupe [] rs ∷ w.log }

pub after_send-Holds :
    (given rs : List Relationship) (w : Writer)
    → ((r : Relationship) → Memᴰ r given → Sent r w.log ⊎ Memᴰ r rs)
    → All (IsRequest w.batch given) w.log
    → ((r : Relationship) → Memᴰ r rs → Memᴰ r given)
    → length rs ≤ w.batch
    → 0 < w.batch
    → Holds given (after_send rs w)
after_send-Holds given rs w covers requests genuine bounded positive = record {
  covers = λ r m. elim (covers r m) [
    | inl s ↦ inl (Sent.before s)
    | inr b ↦ inl (Sent.now (dedupe-Covered_all rs r b))
  ];
  requests = (
    record {
      bounded = omega (arith, length-dedupe-le [] rs);
      distinct = dedupe-HasDistinctKeys [] rs;
      genuine = λ r m. genuine r (mem_of_mem-dedupe [] rs m);
    },
    requests,
  );
  genuine = λ r m. absurd (not-mem-nil m);
  room = positive;
}

-- The writer once a relationship is in the buffer.
abbrev buffered : Relationship → Writer → Writer
buffered x w = record w { buf = w.buf ++ x ∷ []; done = w.done + 1 }

buffered-covers :
    (given : List Relationship) (x : Relationship) (w : Writer)
    → Holds given w
    → (r : Relationship) → Memᴰ r (given ++ x ∷ [])
    → Sent r w.log ⊎ Memᴰ r (w.buf ++ x ∷ [])
buffered-covers given x w h r m = elim (mem-append given (x ∷ []) m) [
  | inl old ↦ elim (h.covers r old) [ inl s ↦ inl s | inr b ↦ inr (mem-append_left (x ∷ []) b) ]
  | inr here ↦ inr (mem-append_right w.buf here)
]

buffered-genuine :
    (given : List Relationship) (x : Relationship) (w : Writer)
    → Holds given w
    → (r : Relationship) → Memᴰ r (w.buf ++ x ∷ [])
    → Memᴰ r (given ++ x ∷ [])
buffered-genuine given x w h r m = elim (mem-append w.buf (x ∷ []) m) [
  | inl old ↦ mem-append_left (x ∷ []) (h.genuine r old)
  | inr here ↦ mem-append_right given here
]

pub flush_batch-eq :
    (write : List Relationship → Fallible (Unit {0})) (rs : List Relationship) (w : Writer)
    → ((batch : List Relationship) → write batch ≡ ok tt)
    → 0 < length rs
    → flush_batch write rs w ≡ ok (after_send rs w)
unfolding flush_batch send
flush_batch-eq write [] w accepts h = absurd (omega arith)
flush_batch-eq write (r ∷ rs) w accepts h = rw accepts

module _ (write : List Relationship → Fallible (Unit {0}))
    (accepts : (batch : List Relationship) → write batch ≡ ok tt) where
  add-Holds :
      (given : List Relationship) (x : Relationship) (w : Writer)
      → Holds given w
      → (w' : Writer) × (add write x w ≡ ok w') × Holds (given ++ x ∷ []) w' × (w'.batch ≡ w.batch)
  unfolding add flush
  add-Holds given x w h = elim (Bool-cases (leb w.batch (length (w.buf ++ x ∷ [])))) [
    | inl full ↦ (
      after_send (w.buf ++ x ∷ []) (buffered x w),
      rw full (
          flush_batch-eq write (w.buf ++ x ∷ []) (buffered x w) accepts
            (omega (arith, length-append w.buf (x ∷ [])))),
      after_send-Holds (given ++ x ∷ []) (w.buf ++ x ∷ []) (buffered x w)
          (buffered-covers given x w h) (widen w.batch given x w.log h.requests)
          (buffered-genuine given x w h) (omega (arith, length-append w.buf (x ∷ []), h.room))
          (omega (arith, h.room)),
      refl,
    )
    | inr room ↦ (
      buffered x w,
      rw room refl,
      record {
        covers = buffered-covers given x w h;
        requests = widen w.batch given x w.log h.requests;
        genuine = buffered-genuine given x w h;
        room = ground (arith, room);
      },
      refl,
    )
  ]

  pub add_all-Holds :
      (given rs : List Relationship) (w : Writer)
      → Holds given w
      → (w' : Writer) × (add_all write rs w ≡ ok w') × Holds (given ++ rs) w' × (w'.batch ≡ w.batch)
  unfolding add_all
  add_all-Holds given [] w h = (w, refl, rw append-nil h, refl)
  add_all-Holds given (r ∷ rs) w h =
      let (v, e, k, same) = add-Holds given r w h in
      let (w', e', k', same') = add_all-Holds (given ++ r ∷ []) rs v k in
      (w', rw e e', subst (λ l. Holds l w') (append_assoc given (r ∷ []) rs) k', cc (same, same'))
