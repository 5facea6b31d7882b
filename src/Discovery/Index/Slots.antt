-- ===== src/Discovery/Index/Slots.antt =====
-- observations.go, `unambiguousSpanIndex`: what the loop does at one key of its three maps.
use bering.Prelude.{
  ◌≡◌, refl, String, Bool, true, false, ◌&&◌, not, Option, none, some, is_empty, arith, ◌==◌,
  eq_iff, eq_refl, ap, sym, ◌∙◌, subst, if◌then◌else◌, Bool-cases, inl, inr,
}
use bering.Go.Map.{lookup, contains, lookup-put, lookup-delete}
use bering.Runtime.Types.{Span}
use bering.Discovery.Attributes.{Texts}
use bering.Discovery.Index.{
  Marshal, SpanIndex, differs, span_signature, key_of, lesser, is_named, hold, mark_ambiguous,
  index_span,
}

-- The entries at one key.
pub record Slot (Value : Type 0) : Type 0 where
  pub is_ambiguous : Bool
  pub held : Option (Span Value)
  pub signature : Option String

module _ {Value : Type 0} where
  unfoldable pub slot : String → SpanIndex Value → Slot Value
  slot k st = record {
    is_ambiguous = contains st.ambiguous k;
    held = lookup k st.index;
    signature = lookup k st.signatures;
  }

  unfoldable pub marked : Slot Value → Slot Value
  marked e = record e { is_ambiguous = true; held = none }

  module _ (texts : Texts Value) (json : Marshal Value) where
    unfoldable pub matches : String → Span Value → Bool
    matches k span = is_named texts json span && key_of texts json span == k

    unfoldable pub hold_slot : Span Value → Option String → Slot Value → Slot Value
    unfolding marked
    hold_slot span none e = marked e
    hold_slot span (some signature) e =
        if differs e.signature signature
        then marked e
        else record e { held = some (lesser texts json span e.held); signature = some signature }

    unfoldable pub admit_slot : Span Value → Slot Value → Slot Value
    unfolding hold_slot marked
    admit_slot span e =
        if not (is_empty span.attribute_conflicts)
        then marked e
        else hold_slot span (span_signature texts json span) e

    unfoldable pub update_slot : Span Value → Slot Value → Slot Value
    update_slot span e = if e.is_ambiguous then e else admit_slot span e

    slot-mark_ambiguous :
        (k : String) (st : SpanIndex Value) (key : String)
        → slot k (mark_ambiguous texts json key st)
          ≡ (if key == k then marked (slot k st) else slot k st)
    unfolding slot mark_ambiguous marked contains
    slot-mark_ambiguous k st key = elim (Bool-cases (key == k)) [
      | inl same ↦ rw (lookup-delete key k st.index, same) refl
      | inr other ↦ rw (lookup-delete key k st.index, other) refl
    ]

    -- What is held of the key that is worked on.
    hold-same :
        (st : SpanIndex Value) (span : Span Value) (key : String) (signature : Option String)
        → slot key (hold texts json key span signature st) ≡ hold_slot span signature (slot key st)
    unfolding slot hold hold_slot contains
    hold-same st span key none = slot-mark_ambiguous key st key ∙ rw (eq_refl key) refl
    hold-same st span key (some signature) =
        elim (Bool-cases (differs (lookup key st.signatures) signature)) [
          | inl differs ↦ rw differs (slot-mark_ambiguous key st key ∙ rw (eq_refl key) refl)
          | inr agrees ↦
              rw
                (
                  agrees,
                  lookup-put key key (lesser texts json span (lookup key st.index)) st.index,
                  lookup-put key key signature st.signatures,
                  eq_refl key,
                )
                refl
        ]

    hold-other :
        (k : String) (st : SpanIndex Value) (span : Span Value) (key : String)
        (signature : Option String)
        → (key == k) ≡ false
        → slot k (hold texts json key span signature st) ≡ slot k st
    unfolding slot hold
    hold-other k st span key none other = slot-mark_ambiguous k st key ∙ rw other refl
    hold-other k st span key (some signature) other =
        elim (Bool-cases (differs (lookup key st.signatures) signature)) [
          | inl differs ↦ rw differs (slot-mark_ambiguous k st key ∙ rw other refl)
          | inr agrees ↦
              rw
                (
                  agrees,
                  lookup-put key k (lesser texts json span (lookup key st.index)) st.index,
                  lookup-put key k signature st.signatures,
                  other,
                )
                refl
        ]

    index_span-skipped :
        (st : SpanIndex Value) (span : Span Value)
        → contains st.ambiguous (key_of texts json span) ≡ true
        → index_span texts json st span ≡ st
    unfolding index_span
    index_span-skipped st span was = rw was (ground arith)

    update_slot-eq :
        (span : Span Value) (e : Slot Value) (b : Bool)
        → e.is_ambiguous ≡ b
        → update_slot span e ≡ (if b then e else admit_slot span e)
    unfolding update_slot
    update_slot-eq span e b was = ap (λ b. if b then e else admit_slot span e) was

    is_ambiguous-slot :
        (k : String) (st : SpanIndex Value) → (slot k st).is_ambiguous ≡ contains st.ambiguous k
    unfolding slot
    is_ambiguous-slot k st = refl

    index_span-fresh :
        (st : SpanIndex Value) (span : Span Value)
        → is_named texts json span ≡ true
        → contains st.ambiguous (key_of texts json span) ≡ false
        → slot (key_of texts json span) (index_span texts json st span)
          ≡ admit_slot span (slot (key_of texts json span) st)
    unfolding index_span admit_slot
    index_span-fresh st span named clear = elim (Bool-cases (is_empty span.attribute_conflicts)) [
      | inl plain ↦ rw (named, clear, plain) (hold-same st span (key_of texts json span) _)
      | inr conflict ↦
          rw (named, clear, conflict)
            (slot-mark_ambiguous _ st (key_of texts json span)
              ∙ rw (eq_refl (key_of texts json span)) refl)
    ]

    index_span-same :
        (st : SpanIndex Value) (span : Span Value)
        → is_named texts json span ≡ true
        → slot (key_of texts json span) (index_span texts json st span)
          ≡ update_slot span (slot (key_of texts json span) st)
    index_span-same st span named =
        let key = key_of texts json span in
        elim (Bool-cases (contains st.ambiguous key)) [
          | inl was ↦
              ap (slot key) (index_span-skipped st span was)
              ∙ sym (update_slot-eq span (slot key st) true (is_ambiguous-slot key st ∙ was))
          | inr clear ↦
              index_span-fresh st span named clear
              ∙ sym (update_slot-eq span (slot key st) false (is_ambiguous-slot key st ∙ clear))
        ]

    index_span-other :
        (k : String) (st : SpanIndex Value) (span : Span Value)
        → (key_of texts json span == k) ≡ false
        → slot k (index_span texts json st span) ≡ slot k st
    unfolding index_span
    index_span-other k st span other = ground (
      arith,
      hold-other k st span (key_of texts json span) (span_signature texts json span) other,
      slot-mark_ambiguous k st (key_of texts json span),
    )

    index_span-unnamed :
        (st : SpanIndex Value) (span : Span Value)
        → is_named texts json span ≡ false
        → index_span texts json st span ≡ st
    unfolding index_span
    index_span-unnamed st span unnamed = rw unnamed refl

    pub slot-index_span :
        (k : String) (st : SpanIndex Value) (span : Span Value)
        → slot k (index_span texts json st span)
          ≡ (if matches k span then update_slot span (slot k st) else slot k st)
    unfolding matches
    slot-index_span k st span = elim (Bool-cases (is_named texts json span)) [
      | inr unnamed ↦ rw unnamed (ap (slot k) (index_span-unnamed st span unnamed))
      | inl named ↦ elim (Bool-cases (key_of texts json span == k)) [
        | inr other ↦ rw (named, other) (index_span-other k st span other)
        | inl same ↦
            rw (named, same)
              (subst (λ k. slot k (index_span texts json st span) ≡ update_slot span (slot k st))
                ((eq_iff (key_of texts json span) k).0 same) (index_span-same st span named))
      ]
    ]
