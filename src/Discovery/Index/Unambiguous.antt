-- ===== src/Discovery/Index/Unambiguous.antt =====
-- observations.go, `unambiguousSpanIndex`: which spans the index has.
use mathlib.Core.List.{mem-append_left}
use bering.Prelude.{
  All-front, ◌≡◌, sym, subst, String, true, false, Option, none, some, List, [], ◌∷◌, ◌++◌,
  is_empty, All, All-imp, All-append, append-nil, append_assoc, Bool-cases, Option-cases, inl, inr,
}
use bering.Go.Map.{lookup, contains}
use bering.Runtime.Types.{Span}
use bering.Discovery.Attributes.{Texts}
use bering.Discovery.Index.{
  Marshal, SpanIndex, differs, lesser, span_signature, index_span, index_loop,
  unambiguous_span_index,
}
use bering.Discovery.Index.Slots.{
  Slot, slot, matches, marked, admit_slot, update_slot, hold_slot, slot-index_span,
}
use bering.Discovery.Index.Agreement.{
  Agrees, AtKey, Stands, Stands-first, Stands-next, not-Agrees, same_of, not-plain, not-signed,
}

module _ {Value : Type 0} (texts : Texts Value) (json : Marshal Value) where
  module _ (k : String) where
    -- What the entries at the key tell of the spans that were seen.
    data Tells : List (Span Value) → Slot Value → Type 0 where
      absent :
          {spans : List (Span Value)}
          → AtKey texts json k (λ t. ⊥) spans
          → Tells spans (record { is_ambiguous = false; held = none; signature = none })
      conflicting :
          {spans : List (Span Value)} {signature : Option String}
          → ((s : String) → AtKey texts json k (Agrees texts json s) spans → ⊥)
          → Tells spans (record { is_ambiguous = true; held = none; signature = signature })
      standing :
          {spans : List (Span Value)} {signature : String} {s : Span Value}
          → Stands texts json k signature s spans
          → Tells spans (record { is_ambiguous = false; held = some s; signature = some signature })

    Tells-skip :
        (x : Span Value) (spans : List (Span Value)) (e : Slot Value)
        → matches texts json k x ≡ false
        → Tells spans e
        → Tells (spans ++ x ∷ []) e
    Tells-skip x spans e other (absent h) = absent (All-append _ spans (x ∷ []) h (λ m. cc, tt))
    Tells-skip x spans e other (conflicting h) =
        conflicting (λ s all. h s (All-front _ spans (x ∷ []) all))
    Tells-skip x spans e other (standing h) = standing (record {
      agree = All-append _ spans (x ∷ []) h.agree (λ m. cc, tt);
      of_key = h.of_key;
      member = mem-append_left (x ∷ []) h.member;
      least = All-append _ spans (x ∷ []) h.least (λ m. cc, tt);
    })

    Tells-update :
        (x : Span Value) (spans : List (Span Value)) (e : Slot Value)
        → matches texts json k x ≡ true
        → Tells spans e
        → Tells (spans ++ x ∷ []) (update_slot texts json x e)
    unfolding update_slot admit_slot hold_slot marked differs lesser
    Tells-update x spans e at (conflicting h) =
        conflicting (λ s all. h s (All-front _ spans (x ∷ []) all))
    Tells-update x spans e at (absent h) = elim (Bool-cases (is_empty x.attribute_conflicts)) [
      | inr conflict ↦
          rw conflict (conflicting (λ s all. not-plain texts json k x spans s at conflict all))
      | inl plain ↦ elim (Option-cases (span_signature texts json x)) [
        | inl unsigned ↦
            rw (plain, unsigned)
              (conflicting (λ s all. not-signed texts json k x spans s at unsigned all))
        | inr (signature, signed) ↦
            rw (plain, signed)
              (standing (Stands-first texts json k x spans signature at (plain, signed) h))
      ]
    ]
    Tells-update x spans e at (standing {signature = previous} {s = s} h) =
        elim (Bool-cases (is_empty x.attribute_conflicts)) [
          | inr conflict ↦
              rw conflict (conflicting (λ s all. not-plain texts json k x spans s at conflict all))
          | inl plain ↦ elim (Option-cases (span_signature texts json x)) [
            | inl unsigned ↦
                rw (plain, unsigned)
                  (conflicting (λ s all. not-signed texts json k x spans s at unsigned all))
            | inr (signature, signed) ↦ elim (Bool-cases (differs (some previous) signature)) [
              | inl other ↦
                  rw (plain, signed, other)
                    (conflicting
                      (not-Agrees texts json k x spans signature previous s at signed other h))
              | inr agrees ↦
                  rw (plain, signed, agrees)
                    (standing (
                      Stands-next texts json k x spans signature s at (plain, signed)
                        (subst (λ p. Stands texts json k p s spans)
                          (same_of texts json k previous signature agrees) h)))
            ]
          ]
        ]

    Tells-loop :
        (rest spans : List (Span Value)) (st : SpanIndex Value)
        → Tells spans (slot k st)
        → Tells (spans ++ rest) (slot k (index_loop texts json rest st))
    unfolding index_loop
    Tells-loop [] spans st h = subst (λ xs. Tells xs (slot k st)) (sym (append-nil spans)) h
    Tells-loop (x ∷ rest) spans st h =
        subst (λ xs. Tells xs (slot k (index_loop texts json rest (index_span texts json st x))))
          (append_assoc spans (x ∷ []) rest)
          (Tells-loop rest (spans ++ x ∷ []) (index_span texts json st x) (
            subst (Tells (spans ++ x ∷ [])) (sym (slot-index_span texts json k st x))
              (elim (Bool-cases (matches texts json k x)) [
                | inl at ↦ rw at (Tells-update x spans (slot k st) at h)
                | inr other ↦ rw other (Tells-skip x spans (slot k st) other h)
              ])))

    -- The list has no span of the key.
    abbrev pub NoneAtKey : List (Span Value) → Type 0
    NoneAtKey spans = All (λ t. matches texts json k t ≡ false) spans

    -- What an entry of the index says of the spans of its key.
    unfoldable pub Picks : List (Span Value) → Option (Span Value) → Type 0
    Picks spans none = ¬ (
        (signature : String) × (AtKey texts json k (Agrees texts json signature) spans
          × ¬ NoneAtKey spans))
    Picks spans (some s) = (signature : String) × Stands texts json k signature s spans

    Tells-Picks : (spans : List (Span Value)) (e : Slot Value) → Tells spans e → Picks spans e.held
    unfolding Picks
    Tells-Picks spans e (absent h) = λ (signature, (all, present)). present (
        All-imp _ _ spans
          (λ t no. elim (Bool-cases (matches texts json k t)) [
            | inl at ↦ absurd (no at)
            | inr other ↦ other
          ])
          h)
    Tells-Picks spans e (conflicting h) = λ (signature, (all, present)). h signature all
    Tells-Picks spans e (standing {signature = signature} h) = (signature, h)

    -- The index has a span under a key exactly when there are spans of the key and they agree: none of
    -- them has attributes in conflict, and all have one signature. It is then the one of them whose
    -- JSON is least.
    pub unambiguous_span_index-Picks :
        (spans : List (Span Value))
        → Picks spans (lookup k (unambiguous_span_index texts json spans).index)
    unfolding unambiguous_span_index slot lookup contains
    unambiguous_span_index-Picks spans = Tells-Picks spans _ (Tells-loop spans [] _ (absent tt))
