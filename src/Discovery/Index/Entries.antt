-- ===== src/Discovery/Index/Entries.antt =====
-- observations.go, `unambiguousSpanIndex`: the index has only spans of the list.
use bering.Prelude.{
  String, ◌≡◌, refl, is_empty, Option, none, some, List, [], ◌∷◌, All, Bool-cases, inl, inr,
}
use bering.Go.Text.Order.{less}
use bering.Go.Map.{Map, contains, lookup, All-put, All-delete, All-lookup}
use bering.Runtime.Types.{Span}
use bering.Discovery.Attributes.{Texts}
use bering.Discovery.Index.{
  Marshal, SpanIndex, lesser, hold, mark_ambiguous, differs, is_named, index_span, index_loop,
  key_of, span_signature, unambiguous_span_index,
}

module _ {Value : Type 0} (texts : Texts Value) (json : Marshal Value)
    (P : Span Value → Type 0) where
  abbrev pub AllEntries : Map (Span Value) → Type 0
  AllEntries index = All (λ (e : String × Span Value). P e.1) index

  All-lesser :
      (x : Span Value) (held : Option (Span Value))
      → P x
      → ((s : Span Value) → held ≡ some s → P s)
      → P (lesser texts json x held)
  unfolding lesser
  All-lesser x none p h = p
  All-lesser x (some s) p h = elim (Bool-cases (less (json.span x) (json.span s))) [
    | inl before ↦ rw before p
    | inr after ↦ rw after (h s refl)
  ]

  hold-AllEntries :
      (key : String) (x : Span Value) (signature : Option String) (st : SpanIndex Value)
      → P x
      → AllEntries st.index
      → AllEntries (hold texts json key x signature st).index
  unfolding hold mark_ambiguous
  hold-AllEntries key x none st p h = All-delete _ key st.index h
  hold-AllEntries key x (some signature) st p h =
      elim (Bool-cases (differs (lookup key st.signatures) signature)) [
        | inl other ↦ rw other (All-delete _ key st.index h)
        | inr agrees ↦ rw agrees (
            All-put _ key _ st.index
              (All-lesser x (lookup key st.index) p (λ s is. All-lookup _ key st.index is h)) h)
      ]

  index_span-AllEntries :
      (st : SpanIndex Value) (x : Span Value)
      → P x
      → AllEntries st.index
      → AllEntries (index_span texts json st x).index
  unfolding index_span mark_ambiguous
  index_span-AllEntries st x p h =
      let key = key_of texts json x in
      elim (Bool-cases (is_named texts json x)) [
        | inr unnamed ↦ rw unnamed h
        | inl named ↦ elim (Bool-cases (contains st.ambiguous key)) [
          | inl was ↦ rw (named, was) h
          | inr clear ↦ elim (Bool-cases (is_empty x.attribute_conflicts)) [
            | inl plain ↦
                rw (named, clear, plain)
                  (hold-AllEntries key x (span_signature texts json x) st p h)
            | inr conflict ↦ rw (named, clear, conflict) (All-delete _ key st.index h)
          ]
        ]
      ]

  index_loop-AllEntries :
      (spans : List (Span Value)) (st : SpanIndex Value)
      → All P spans
      → AllEntries st.index
      → AllEntries (index_loop texts json spans st).index
  unfolding index_loop
  index_loop-AllEntries [] st p h = h
  index_loop-AllEntries (x ∷ spans) st p h =
      index_loop-AllEntries spans (index_span texts json st x) p.1
        (index_span-AllEntries st x p.0 h)

  -- What holds of all the spans holds of those that are indexed.
  pub unambiguous_span_index-AllEntries :
      (spans : List (Span Value))
      → All P spans
      → AllEntries (unambiguous_span_index texts json spans).index
  unfolding unambiguous_span_index
  unambiguous_span_index-AllEntries spans p = index_loop-AllEntries spans _ p tt
