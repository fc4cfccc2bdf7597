-- ===== src/Seed/Sampler/Pbac/Laws.antt =====
-- The checks that are sampled for a purchase order are decided as the policy's window decides them.
use test_permission.Base.{
  true, false, ℕ, zero, suc, ◌+◌, ◌<◌, ◌≤◌, ◌≡◌, refl, String, some, List, length, get_elem?, Memᴰ,
  contains, arith, nat_eq, ◌≢◌, [], ◌∷◌, eq_iff, inl, inr,
}
use test_permission.Base.Int.{ℤ, pos, leb_ℤ, ltb_ℤ, ◌+ℤ◌, ◌-ℤ◌}
use test_permission.Base.Members.{mem-cons, not-mem-nil}
use test_permission.Domain.{Value}
use test_permission.Seed.Types.{Persona, PurchaseOrder}
use test_permission.Seed.Generator.{Generator}
use test_permission.Seed.Sampler.{Tuple, Sampler, add, number_of}
use test_permission.Seed.Program.{Call}
use test_permission.Seed.Program.Laws.{Emits, Emits-elim}
use test_permission.Seed.Program.Picks.{Emits-get_then, Emits-pick_then}
use test_permission.Seed.Generator.{regions}
use test_permission.Seed.Sampler.{random_persona_other_root}
use test_permission.Seed.Sampler.Pbac.{region_outside}

-- The window of an order, as the generator draws it.
pub record IsWindow (po : PurchaseOrder) : Type 0 where
  pub floor : ℕ
  pub ceiling : ℕ
  pub min_is : po.policy_min_amount ≡ pos floor
  pub max_is : po.policy_max_amount ≡ pos ceiling
  pub low : floor ≤ 5_000_000
  pub high : 10_000_000 ≤ ceiling

pub inside_window :
    (floor ceiling x : ℕ)
    → floor ≤ 5_000_000
    → 10_000_000 ≤ ceiling
    → x < 1_000_000
    → (leb_ℤ (pos floor) (pos ceiling -ℤ pos (x + 1)) ≡ true)
      × (leb_ℤ (pos ceiling -ℤ pos (x + 1)) (pos ceiling) ≡ true)
inside_window floor ceiling x low high b = (ground (arith, low, high, b), ground (arith, b))

pub above_window : (ceiling : ℕ) → ltb_ℤ (pos ceiling) (pos ceiling +ℤ pos 1_000_000) ≡ true
above_window ceiling = ground arith

pub below_window : (floor : ℕ) → ltb_ℤ (pos floor -ℤ pos 1) (pos floor) ≡ true
below_window floor = ground arith

-- A persona that does not live in the tree of the root.
pub record IsStranger (gen : Generator) (root : ℕ) (id : String) : Type 0 where
  pub pi : ℕ
  pub oi : ℕ
  pub other : ℕ
  pub p : Persona
  pub persona_at : get_elem? gen.personas pi ≡ some p
  pub home_at : get_elem? gen.persona_org pi ≡ some oi
  pub root_at : get_elem? gen.root_of oi ≡ some other
  pub differs : other ≢ root
  pub is_it : id ≡ p.id

-- The order's own values say that the check is allowed, or that it is denied.
abbrev pub Allows : PurchaseOrder → List String → String → ℤ → String → Type 0
Allows po assignees principal amount region =
    (po.policy_active ≡ true)
    × Memᴰ principal assignees
    × (leb_ℤ po.policy_min_amount amount ≡ true)
    × (leb_ℤ amount po.policy_max_amount ≡ true)
    × Memᴰ region po.policy_regions

pub data Denies (po : PurchaseOrder) (gen : Generator) (principal : String) (amount : ℤ)
    (region : String) : Type 0 where
  above : ltb_ℤ po.policy_max_amount amount ≡ true → Denies po gen principal amount region
  below : ltb_ℤ amount po.policy_min_amount ≡ true → Denies po gen principal amount region
  outside : (¬ (Memᴰ region po.policy_regions)) → Denies po gen principal amount region
  inactive : po.policy_active ≡ false → Denies po gen principal amount region
  stranger :
      (root : ℕ)
      → get_elem? gen.root_of (number_of po.org_id gen.org_idx) ≡ some root
      → IsStranger gen root principal
      → Denies po gen principal amount region

-- A check of an order, with the amount and the region in its context.
abbrev pub order_check : PurchaseOrder → String → ℤ → String → String → Tuple
order_check po principal amount region expected = record {
  model = "pbac";
  principal = principal;
  action = "po.approve";
  resource_type = "PurchaseOrder";
  resource = po.id;
  context = ("amount", Value.int64 amount) ∷ ("region", Value.string region) ∷ [];
  expected = expected;
}

-- What a sampled check of an order may be.
pub data Truthful (po : PurchaseOrder) (gen : Generator) (assignees : List String)
    : Tuple → Type 0 where
  allowed :
      {principal : String} {amount : ℤ} {region : String}
      → Allows po assignees principal amount region
      → Truthful po gen assignees (order_check po principal amount region "allow")
  denied :
      {principal : String} {amount : ℤ} {region : String}
      → Denies po gen principal amount region
      → Truthful po gen assignees (order_check po principal amount region "deny")

-- The second sampler is the first with some tuples added.
pub data Adds (Q : Tuple → Type 0) (s : Sampler) : Sampler → Type 0 where
  same : Adds Q s s
  more : {next : Sampler} {t : Tuple} → Adds Q s next → Q t → Adds Q s (add t next)

-- A generator whose personas live in organizations that it knows.
pub record HasHomes (gen : Generator) : Type 0 where
  pub some_personas : 0 < length gen.personas
  pub homes : length gen.persona_org ≡ length gen.personas
  pub homes_in : (i oi : ℕ) → get_elem? gen.persona_org i ≡ some oi → oi < length gen.root_of

module _ (P : Call → Type 0) (s : Sampler) (housed : HasHomes s.gen) where
  pub random_persona_other_root-Emits :
      (root fuel : ℕ) → Emits P (IsStranger s.gen root) (random_persona_other_root s root fuel)
  unfolding Emits random_persona_other_root
  random_persona_other_root-Emits root zero = refl
  random_persona_other_root-Emits root (suc fuel) = (
    housed.some_personas,
    λ pi b.
        Emits-get_then P _ (Generator.persona_org s.gen) pi _ (omega (arith, b, housed.homes))
          (λ oi home_at.
            Emits-get_then P _ (Generator.root_of s.gen) oi _ (housed.homes_in pi oi home_at)
              (λ other root_at.
                Emits-elim P _ (nat_eq other root) _ _
                  (λ _. random_persona_other_root-Emits root fuel)
                  (λ differs. Emits-get_then P _ (Generator.personas s.gen) pi _ b (λ p persona_at.
                    record {
                      pi = pi;
                      oi = oi;
                      other = other;
                      p = p;
                      persona_at = persona_at;
                      home_at = home_at;
                      root_at = root_at;
                      differs = λ e. ground (arith, differs, e);
                      is_it = refl;
                    })))),
  )

unlisted : (listed : List String) (r : String) → contains listed r ≡ false → ¬ (Memᴰ r listed)
unfolding contains
unlisted [] r out m = not-mem-nil m
unlisted (x ∷ listed) r out m = elim (mem-cons m) [
  | inl e ↦ ground (arith, out, e, eq_iff x r)
  | inr later ↦ unlisted listed r (ground (arith, out)) later
]

pub region_outside-Emits :
    (P : Call → Type 0) (listed : List String) (fuel : ℕ)
    → Emits P (λ r. ¬ (Memᴰ r listed)) (region_outside listed fuel)
unfolding Emits region_outside
region_outside-Emits P listed zero = refl
region_outside-Emits P listed (suc fuel) = Emits-pick_then P _ regions _ (omega arith) (λ r _.
    Emits-elim P _ (contains listed r) _ _ (λ _. region_outside-Emits P listed fuel)
      (λ out. unlisted listed r out))
