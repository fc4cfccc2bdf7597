-- ===== src/Seed/Generator/Running/Laws.antt =====
-- `Run`: every sink gets the same calls, and the records of all phases fit together.
use test_permission.Base.{ℕ, ◌≡◌, inl, inr, refl, sym, ◌∙◌, String, List, [], ◌∷◌, Memᴰ, All}
use test_permission.Base.Members.{mem-append, not-mem-nil}
use test_permission.Seed.Types.{Fact}
use test_permission.Seed.Checkpoints.{all_phases}
use test_permission.Seed.Program.Laws.{Done}
use test_permission.Seed.Program.Picks.{All-mem, All-of_mem}
use test_permission.Seed.Program.Running.{Random, InRange, stream, facts_of}
use test_permission.Seed.Program.Running.Soundness.{Ends, Emits-stream, mem-facts_of}
use test_permission.Seed.Generator.{Generator}
use test_permission.Seed.Generator.Built.{IsBuilt, Registered, HasKind}
use test_permission.Seed.Generator.Grants.Laws.{IsGrant}
use test_permission.Seed.Generator.Running.{stream_of, rng}
use test_permission.Seed.Generator.Running.Facts.{
  Consistent, ConsistentCall, stream_of-Emits, dataset_of,
}
use test_permission.Equivalence.Rbac.{Kind, endpoint, page, component, def_type, action_on}
use test_permission.Equivalence.Rbac.Sides.{GrantsMatch}

-- An action is that of its kind.
kind_of_grant :
    (k : Kind) (type action : String)
    → Registered type action
    → type ≡ def_type k
    → action ≡ action_on k
kind_of_grant endpoint _ _ Registered.executed e = refl
kind_of_grant page _ _ Registered.viewed e = refl
kind_of_grant component _ _ Registered.rendered e = refl
kind_of_grant endpoint _ _ Registered.viewed e = absurd (cc e)
kind_of_grant endpoint _ _ Registered.rendered e = absurd (cc e)
kind_of_grant page _ _ Registered.executed e = absurd (cc e)
kind_of_grant page _ _ Registered.rendered e = absurd (cc e)
kind_of_grant component _ _ Registered.executed e = absurd (cc e)
kind_of_grant component _ _ Registered.viewed e = absurd (cc e)

module _ (padded : ℕ → ℕ → String) (fuel : ℕ) (R : Random) (in_range : InRange R) (g : Generator)
    (built : IsBuilt g) where
  mem-dataset_of :
      (phases : List String) (f : Fact)
      → ((ph : String) → Memᴰ ph phases → Memᴰ ph all_phases)
      → Memᴰ f (dataset_of padded fuel R g phases)
      → Consistent padded g f
  unfolding dataset_of
  mem-dataset_of [] f known m = absurd (not-mem-nil m)
  mem-dataset_of (phase ∷ phases) f known m =
      elim (mem-append (facts_of (stream R (stream_of padded fuel g phase) (rng R g phase)).0)
        (dataset_of padded fuel R g phases) m) [
          | inl here ↦
              mem-facts_of (ConsistentCall padded g)
                (stream R (stream_of padded fuel g phase) (rng R g phase)).0 f
                (Emits-stream R in_range (ConsistentCall padded g) Done
                  (stream_of padded fuel g phase) (rng R g phase)
                  (stream_of-Emits padded fuel g built phase (known phase (Memᴰ.head refl)))).0
                here
          | inr later ↦ mem-dataset_of phases f (λ ph n. known ph (Memᴰ.tail n)) later
        ]

  -- A phase of a generator that BuildBasis has filled never panics, by an index out of range or by drawing below a bound that is not positive: it ends well, or a loop of it has run out of its fuel.
  pub phase-Ends :
      (phase : String)
      → Memᴰ phase all_phases
      → Ends Done (stream R (stream_of padded fuel g phase) (rng R g phase)).1
  phase-Ends phase known =
      (Emits-stream R in_range (ConsistentCall padded g) Done (stream_of padded fuel g phase)
        (rng R g phase) (stream_of-Emits padded fuel g built phase known)).1

  -- Every record of a run over all phases fits the tables of the generator that BuildBasis has filled: a role grant is of a role and a resource of the tables, for the resource's own action; a persona's role is one of the root of the tree that its organization is in; a folder's parent is an earlier folder of its own organization, and it is shared with no organization but one of the same tree; a manager's organization is in the tree of the persona's own; a document lies in one of the folders; a policy is a root's, has 1 to 3 known regions, a floor of 1 to 5 million and a ceiling of 10 to 499 million; policies, assignments and purchase orders bear the id of one of the numbered policies, as many as all roots have; a purchase order has an organization, limits and regions that such a policy can have, and its region is one of them; an attribute document has the region of its organization, a classification from 1 to 4 and one of the three statuses; an ACL entry is a persona's, for viewing or editing.
  pub dataset-Consistent : All (Consistent padded g) (dataset_of padded fuel R g all_phases)
  dataset-Consistent =
      All-of_mem (dataset_of padded fuel R g all_phases)
        (λ f m. mem-dataset_of all_phases f (λ ph n. n) m)

  -- In the records of a run over all phases of a generator that BuildBasis has filled, every role grant on a resource of a kind is for the action of that kind, which is what the agreement of the two engines on RBAC checks asks of a dataset.
  pub dataset-GrantsMatch : (k : Kind) → GrantsMatch (dataset_of padded fuel R g all_phases) k
  dataset-GrantsMatch k gr m is_kind =
      let grant : IsGrant g gr =
        All-mem (Consistent padded g) (dataset_of padded fuel R g all_phases) dataset-Consistent
          m in
      let matches : HasKind grant.res = All-mem HasKind g.resources built.kinds grant.res_listed in
      grant.of_action
      ∙ kind_of_grant k grant.res.kind grant.res.action matches (sym grant.of_type ∙ is_kind)
