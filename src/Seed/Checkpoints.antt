-- ===== src/Seed/Checkpoints.antt =====
-- internal/seed/writer_postgres.go `DonePhases` and cmd/authz-seed/main.go `pendingPhases`: which
-- phases a run still has to seed. The rows of seed_checkpoints for an engine are a parameter.
use test_permission.Base.{
  Bool, true, false, String, List, [], ◌∷◌, ◌≡◌, refl, ◌↔◌, ◌==◌, ◌&&◌, ◌||◌, not, arith, contains,
  if◌then◌else◌, Bool-cases, inl, inr,
}
use test_permission.Base.Fallible.{Fallible, ok, err, fault, wrapping, ◌>>=◌}

abbrev pub all_phases : List String
all_phases = "basis" ∷ "rbac" ∷ "rebac" ∷ "abac" ∷ "pbac" ∷ "acl" ∷ []

-- A row is the phase and the parameters that it was seeded under.
abbrev pub CheckpointRow : Type 0
CheckpointRow = String × String

-- The loop over the rows: the phases under the same or under no parameters, and the last other
-- parameters that were met.
unfoldable pub scan_rows : String → List CheckpointRow → List String → String → List String × String
scan_rows params [] done conflict = (done, conflict)
scan_rows params (row ∷ rows) done conflict =
    let conflicting = scan_rows params rows done row.1 in
    let matching = scan_rows params rows (row.0 ∷ done) conflict in
    if not (row.1 == "") && not (row.1 == params) then conflicting else matching

unfoldable pub done_phases : String → List CheckpointRow → List String × String
unfolding scan_rows
done_phases params rows = scan_rows params rows [] ""

-- The loop over all phases.
unfoldable pub skip_done : List String → List String → List String
unfolding contains
skip_done done [] = []
skip_done done (phase ∷ phases) =
    let rest = skip_done done phases in if contains done phase then rest else phase ∷ rest

-- What is done with the rows.
unfoldable pub resume_after : List String × String → Fallible (List String)
unfolding skip_done
resume_after (done, conflict) =
    if conflict == ""
    then ok (skip_done done all_phases)
    else err (fault "existing checkpoints were written with different params")

unfoldable pub pending_phases :
    Bool → String → Fallible (List CheckpointRow) → Fallible (List String)
unfolding done_phases resume_after
pending_phases false params read = ok all_phases
pending_phases true params read = do
  rows ← wrapping "read checkpoints" read
  resume_after (done_phases params rows)

-- A row under the same parameters, or under none.
abbrev pub matches : String → CheckpointRow → Bool
matches params row = row.1 == "" || row.1 == params

abbrev pub all_match : String → List CheckpointRow → Bool
all_match params [] = true
all_match params (row ∷ rows) = matches params row && all_match params rows

abbrev pub recorded : List CheckpointRow → String → Bool
recorded [] phase = false
recorded (row ∷ rows) phase = row.0 == phase || recorded rows phase

scan_rows-conflict :
    (params : String) (rows : List CheckpointRow) (done : List String) (conflict : String)
    → ((scan_rows params rows done conflict).1 == "") ≡ (all_match params rows && conflict == "")
unfolding scan_rows
scan_rows-conflict params [] done conflict = refl
scan_rows-conflict params (row ∷ rows) done conflict = ground (
  arith,
  scan_rows-conflict params rows done row.1,
  scan_rows-conflict params rows (row.0 ∷ done) conflict,
)

scan_rows-done :
    (params : String) (rows : List CheckpointRow) (done : List String) (conflict phase : String)
    → all_match params rows ≡ true
    → contains (scan_rows params rows done conflict).0 phase
      ≡ (recorded rows phase || contains done phase)
unfolding scan_rows contains
scan_rows-done params [] done conflict phase h = refl
scan_rows-done params (row ∷ rows) done conflict phase h =
    ground (arith, h, scan_rows-done params rows (row.0 ∷ done) conflict phase)

-- The phases without a row, in order.
abbrev pub unrecorded : List CheckpointRow → List String → List String
unrecorded rows [] = []
unrecorded rows (phase ∷ phases) =
    let rest = unrecorded rows phases in if recorded rows phase then rest else phase ∷ rest

skip_done-unrecorded :
    (done : List String) (rows : List CheckpointRow) (phases : List String)
    → ((phase : String) → contains done phase ≡ recorded rows phase)
    → skip_done done phases ≡ unrecorded rows phases
unfolding skip_done
skip_done-unrecorded done rows [] same = refl
skip_done-unrecorded done rows (phase ∷ phases) same =
    ground (arith, same phase, skip_done-unrecorded done rows phases same)

-- A run that resumes from rows that were read gets a list of phases exactly when every row was written under the same parameters or under none, and the list is then the phases without a row, in their order; a row under other parameters is an error.
pub pending_phases-eq-ok_iff :
    (params : String) (rows : List CheckpointRow) (phases : List String)
    → (pending_phases true params (ok rows) ≡ ok phases)
      ↔ ((all_match params rows ≡ true) × (phases ≡ unrecorded rows all_phases))
unfolding pending_phases done_phases resume_after contains
pending_phases-eq-ok_iff params rows phases = elim (Bool-cases (all_match params rows)) [
  | inr other ↦ (
    λ h. absurd (ground (arith, h, other, scan_rows-conflict params rows [] "")),
    λ (h, _). absurd (ground (arith, h, other)),
  )
  | inl match ↦
      let skipped =
        skip_done-unrecorded (scan_rows params rows [] "").0 rows all_phases
          (λ phase. ground (arith, match, scan_rows-done params rows [] "" phase match)) in
      (
        λ h. (match, ground (arith, h, match, skipped, scan_rows-conflict params rows [] "")),
        λ (_, e). ground (arith, e, match, skipped, scan_rows-conflict params rows [] ""),
      )
]
