-- ===== src/Tests/Resuming.antt =====
-- Resuming a seeding run after two phases.
use test_permission.Base.{true, String, List, [], ◌∷◌, ◌≡◌, ◌↔◌}
use test_permission.Base.Fallible.{ok}
use test_permission.Seed.Checkpoints.{
  CheckpointRow, pending_phases, all_match, unrecorded, all_phases, pending_phases-eq-ok_iff,
}

abbrev checkpoint_rows : List CheckpointRow
checkpoint_rows = ("basis", "seed=1") ∷ ("rbac", "") ∷ []

abbrev remaining : List String
remaining = "rebac" ∷ "abac" ∷ "pbac" ∷ "acl" ∷ []

pending_phases-eq-ok_iff_example :
    (pending_phases true "seed=1" (ok checkpoint_rows) ≡ ok remaining) ↔ (
      (all_match "seed=1" checkpoint_rows ≡ true)
      × (remaining ≡ unrecorded checkpoint_rows all_phases))
pending_phases-eq-ok_iff_example = pending_phases-eq-ok_iff "seed=1" checkpoint_rows remaining
