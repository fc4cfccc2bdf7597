-- ===== src/Seed/SpicedbWriter/Dedupe.antt =====
-- The relationships of one request: no key twice, no key lost.
use Prim.Native.String.{◌++◌ as str_append}
use test_permission.Base.{
  ◌≢◌, true, false, String, List, [], ◌∷◌, ◌==◌, ◌≡◌, refl, sym, ap, ◌⊎◌, inl, inr, arith, eq_iff,
  contains, Bool-cases, All, Memᴰ, length, ◌≤◌,
}
use test_permission.Base.Members.{mem-cons, not-mem-nil}
use test_permission.Seed.Relationships.{Relationship}
use test_permission.Seed.SpicedbWriter.{key, dedupe}

abbrev joined : String → String → String
joined a b = str_append a (str_append "\0" b)

-- The resource, the relation and the subject in one text, a NUL between the parts: all but the
-- caveat.
abbrev pub identity : Relationship → String
identity r =
    joined r.res_type
      (joined r.res_id (joined r.relation (joined r.subj_type (joined r.subj_id r.subj_rel))))

identity_of_key : (r r' : Relationship) → key r ≡ key r' → identity r ≡ identity r'
unfolding key
identity_of_key r r' e = e

identity_differs : (r r' : Relationship) → (key r == key r') ≡ false → identity r ≢ identity r'
unfolding key
identity_differs r r' other e =
    absurd (ground (arith, other, (eq_iff (identity r) (identity r')).1 e))

-- No two relationships of a request have one identity.
abbrev pub HasDistinctKeys : List Relationship → Type 0
HasDistinctKeys [] = Unit
HasDistinctKeys (r ∷ rs) = All (λ r'. identity r ≢ identity r') rs × HasDistinctKeys rs

-- A relationship with the same identity is in the list.
abbrev pub Covered : Relationship → List Relationship → Type 0
Covered r rs = (r' : Relationship) × Memᴰ r' rs × (identity r' ≡ identity r)

dedupe-unseen :
    (seen : List String) (rs : List Relationship)
    → All (λ r. contains seen (key r) ≡ false) (dedupe seen rs)
unfolding dedupe
dedupe-unseen seen [] = tt
dedupe-unseen seen (r ∷ rs) = elim (Bool-cases (contains seen (key r))) [
  | inl dup ↦ rw dup (dedupe-unseen seen rs)
  | inr fresh ↦
      rw fresh (fresh, weaken (dedupe (key r ∷ seen) rs) (dedupe-unseen (key r ∷ seen) rs))
]
  where
    weaken :
        (l : List Relationship)
        → All (λ r'. contains (key r ∷ seen) (key r') ≡ false) l
        → All (λ r'. contains seen (key r') ≡ false) l
    weaken [] h = tt
    weaken (x ∷ l) (p, h) = (ground (arith, p), weaken l h)

head_key_distinct :
    (seen : List String) (r : Relationship) (l : List Relationship)
    → All (λ r'. contains (key r ∷ seen) (key r') ≡ false) l
    → All (λ r'. identity r ≢ identity r') l
unfolding contains
head_key_distinct seen r [] h = tt
head_key_distinct seen r (x ∷ l) (p, h) =
    (identity_differs r x (ground (arith, p)), head_key_distinct seen r l h)

pub dedupe-HasDistinctKeys :
    (seen : List String) (rs : List Relationship) → HasDistinctKeys (dedupe seen rs)
unfolding dedupe
dedupe-HasDistinctKeys seen [] = tt
dedupe-HasDistinctKeys seen (r ∷ rs) = elim (Bool-cases (contains seen (key r))) [
  | inl dup ↦ rw dup (dedupe-HasDistinctKeys seen rs)
  | inr fresh ↦ rw fresh (
    head_key_distinct seen r (dedupe (key r ∷ seen) rs) (dedupe-unseen (key r ∷ seen) rs),
    dedupe-HasDistinctKeys (key r ∷ seen) rs,
  )
]

pub mem_of_mem-dedupe :
    (seen : List String) (rs : List Relationship) {r : Relationship}
    → Memᴰ r (dedupe seen rs)
    → Memᴰ r rs
unfolding dedupe
mem_of_mem-dedupe seen [] m = m
mem_of_mem-dedupe seen (x ∷ rs) {r} m = elim (Bool-cases (contains seen (key x))) [
  | inl dup ↦ Memᴰ.tail (mem_of_mem-dedupe seen rs (rw dup at m))
  | inr fresh ↦ elim (mem-cons (rw fresh at m)) [
    | inl e ↦ Memᴰ.head e
    | inr later ↦ Memᴰ.tail (mem_of_mem-dedupe (key x ∷ seen) rs later)
  ]
]

-- What is left out has the key of one that is kept, or of one that was seen before.
dedupe-Covered :
    (seen : List String) (rs : List Relationship) (r : Relationship)
    → Memᴰ r rs
    → (contains seen (key r) ≡ true) ⊎ Covered r (dedupe seen rs)
unfolding dedupe contains
dedupe-Covered seen [] r m = absurd (not-mem-nil m)
dedupe-Covered seen (x ∷ rs) r m = elim (Bool-cases (contains seen (key x))) [
  | inl dup ↦ elim (mem-cons m) [
    | inl e ↦ inl (rw e dup)
    | inr later ↦ rw dup (dedupe-Covered seen rs r later)
  ]
  | inr fresh ↦ elim (mem-cons m) [
    | inl e ↦ inr (rw fresh (x, Memᴰ.head refl, ap identity (sym e)))
    | inr later ↦ elim (dedupe-Covered (key x ∷ seen) rs r later) [
      | inl s ↦ elim (Bool-cases (contains seen (key r))) [
        | inl old ↦ inl old
        | inr unseen ↦
            let same : (key x == key r) ≡ true = ground (arith, s, unseen) in
            inr (rw fresh (x, Memᴰ.head refl, identity_of_key x r ((eq_iff _ _).0 same)))
      ]
      | inr (r', m', e) ↦ inr (rw fresh (r', Memᴰ.tail m', e))
    ]
  ]
]

pub dedupe-Covered_all :
    (rs : List Relationship) (r : Relationship) → Memᴰ r rs → Covered r (dedupe [] rs)
unfolding contains
dedupe-Covered_all rs r m = elim (dedupe-Covered [] rs r m) [ inl seen ↦ absurd (cc) | inr c ↦ c ]

pub length-dedupe-le :
    (seen : List String) (rs : List Relationship) → length (dedupe seen rs) ≤ length rs
unfolding dedupe
length-dedupe-le seen [] = omega arith
length-dedupe-le seen (x ∷ rs) =
    ground (arith, length-dedupe-le seen rs, length-dedupe-le (key x ∷ seen) rs)
