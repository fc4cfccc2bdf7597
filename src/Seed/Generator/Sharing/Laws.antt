-- ===== src/Seed/Generator/Sharing/Laws.antt =====
-- What `StreamACL` emits, whatever is drawn.
use test_permission.Base.{
  Bool, true, false, ℕ, suc, ◌+◌, ◌-◌, ◌<◌, ◌≡◌, ◌⊎◌, inl, inr, refl, String, length, Memᴰ, ltb,
  arith,
}
use test_permission.Seed.Types.{Scale, Org, Persona, AclDoc, AclEntry, Fact}
use test_permission.Seed.Program.{Call, begin_phase, accept, end_phase, int_n, for_range}
use test_permission.Seed.Program.Laws.{
  Done, Emits, Emits-bind, Emits-int_n, Emits-for_range, Emits-draw_each,
}
use test_permission.Seed.Program.Picks.{Emits-get_then, mem-get_elem?}
use test_permission.Seed.Generator.{Generator, id_of}
use test_permission.Seed.Generator.Built.{IsBuilt}
use test_permission.Seed.Generator.Sharing.{entry_action, make_entry, make_acl_doc, stream_acl}

-- An entry is a persona's of the dataset, for one of the two actions.
pub record IsEntry (g : Generator) (e : AclEntry) : Type 0 where
  pub p : Persona
  pub listed : Memᴰ p g.personas
  pub of_persona : e.persona_id ≡ p.id
  pub known : (e.action ≡ "view") ⊎ (e.action ≡ "edit")

pub record IsAclDoc (g : Generator) (d : AclDoc) : Type 0 where
  pub o : Org
  pub listed : Memᴰ o g.orgs
  pub of_org : d.org_id ≡ o.id

abbrev pub AclFact : Generator → Fact → Type 0
AclFact g f = elim f [ Fact.acl_doc d ↦ IsAclDoc g d | Fact.acl_entry e ↦ IsEntry g e | _ ↦ ⊥ ]

abbrev pub AclCall : Generator → Call → Type 0
AclCall g (begin_phase name total) = name ≡ "acl"
AclCall g (accept f) = AclFact g f
AclCall g (end_phase name) = name ≡ "acl"

edit_or_view : (b : Bool) → (entry_action b ≡ "view") ⊎ (entry_action b ≡ "edit")
edit_or_view true = inr refl
edit_or_view false = inl refl

make_entry-Emits :
    (g : Generator) (doc_id : String) (pi : ℕ)
    → pi < length g.personas
    → Emits (AclCall g) Done (make_entry g doc_id pi)
unfolding Emits make_entry
make_entry-Emits g doc_id pi b = (
  (omega arith),
  λ x _. Emits-get_then (AclCall g) Done g.personas pi _ b (λ p found. (
    record {
      p = p;
      listed = mem-get_elem? g.personas pi found;
      of_persona = refl;
      known = edit_or_view (ltb x 3);
    },
    tt,
  )),
)

module _ (padded : ℕ → ℕ → String) (fuel : ℕ) (g : Generator) (built : IsBuilt g) where
  entry_range : 0 < suc (Scale.acl_entries_max g.scale) - Scale.acl_entries_min g.scale
  entry_range = omega (arith, built.populated.entries)

  some_orgs : 0 < length g.orgs
  some_orgs =
      omega (arith, built.populated.some_roots, built.populated.enough_orgs, built.org_count)

  some_personas : 0 < length g.personas
  some_personas = omega (arith, built.populated.some_personas, built.persona_count)

  make_acl_doc-Emits : (i : ℕ) → Emits (AclCall g) Done (make_acl_doc padded fuel g i)
  unfolding Emits make_acl_doc
  make_acl_doc-Emits i = (
    some_orgs,
    λ oi b. Emits-get_then (AclCall g) Done g.orgs oi _ b (λ o found. (
      record { o = o; listed = mem-get_elem? g.orgs oi found; of_org = refl },
      (
        entry_range,
        λ more _.
            Emits-draw_each (AclCall g) (λ pi. pi < length g.personas) (int_n (length g.personas))
              (make_entry g (id_of padded "acldoc-" 6 i)) (Scale.acl_entries_min g.scale + more)
              fuel (Emits-int_n (AclCall g) (length g.personas) some_personas)
              (make_entry-Emits g (id_of padded "acldoc-" 6 i)),
      ),
    )),
  )

  pub stream_acl-Emits : Emits (AclCall g) Done (stream_acl padded fuel g)
  unfolding stream_acl Emits
  stream_acl-Emits = (
    refl,
    Emits-bind (AclCall g) Done Done
        (for_range (make_acl_doc padded fuel g) (Scale.acl_docs g.scale)) _
        (Emits-for_range _ (make_acl_doc padded fuel g) (Scale.acl_docs g.scale)
          (λ i _. make_acl_doc-Emits i))
        (λ _ _. (refl, tt)),
  )
