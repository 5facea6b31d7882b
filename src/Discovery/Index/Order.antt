-- ===== src/Discovery/Index/Order.antt =====
-- observations.go, `unambiguousSpanIndex`: the order of the spans and repeated ones.
use mathlib.Core.Logic.Or
use mathlib.Core.Option
use mathlib.Core.Bool.{true≢false}
use text.Mathlib.TextEquality.{IsScalar-prop}
use mathlib.Core.List.{
  Mem, Mem-prop, not-mem-nil, mem-cons_self, mem-cons_of_mem, eq-or-mem_of_mem-cons,
}
use bering.Prelude.{
  ◌≡◌, refl, sym, ap, ◌∙◌, subst, String, true, false, Option, none, some, List, [], ◌∷◌, All,
}
use bering.Go.Map.{lookup}
use bering.Go.Text.Order.{less, less_connex}
use bering.Runtime.Types.{Span}
use bering.Discovery.Attributes.{Texts}
use bering.Discovery.Index.{Marshal, unambiguous_span_index}
use bering.Discovery.Index.Slots.{matches}
use bering.Discovery.Index.Agreement.{Agrees, Stands}
use bering.Discovery.Index.Unambiguous.{Picks, unambiguous_span_index-Picks}

-- Each element of the first list is one of the second.
abbrev pub IsWithin {ℓ} : {A : Type ℓ} → List A → List A → Type ℓ
IsWithin xs ys = (x : _) → Mem x xs → Mem x ys

module _ {A : Type 0} (P : A → Type 0) (P-prop : (x : A) → IsProp (P x)) where
  All-Mem : (xs : List A) (x : A) → All P xs → Mem x xs → P x
  All-Mem [] x h m = absurd (not-mem-nil m)
  All-Mem (y ∷ ys) x h m =
      Or.elim (P-prop x) (eq-or-mem_of_mem-cons m) (λ e. subst P (sym e) h.0) (All-Mem ys x h.1)

  All-members : (xs ys : List A) → IsWithin xs ys → All P ys → All P xs
  All-members [] ys within h = tt
  All-members (x ∷ xs) ys within h = (
    All-Mem ys x h (within x mem-cons_self),
    All-members xs ys (λ y m. within y (mem-cons_of_mem x m)) h,
  )

-- Told element by element.
pub All-IsWithin : {A : Type 0} (xs ys : List A) → All (λ x. Mem x ys) xs → IsWithin xs ys
All-IsWithin xs ys h x m = All-Mem (λ y. Mem y ys) (λ y. Mem-prop) xs x h m

module _ {Value : Type 0} (texts : Texts Value) (json : Marshal Value) (k : String) where
  Agrees-prop :
      (signature : String) (t : Span Value)
      → IsProp (matches texts json k t ≡ true → Agrees texts json signature t)
  Agrees-prop = hlevel IsScalar-prop

  Below-prop :
      (s t : Span Value)
      → IsProp (matches texts json k t ≡ true → less (json.span t) (json.span s) ≡ false)
  Below-prop = hlevel

  None-prop : (t : Span Value) → IsProp (matches texts json k t ≡ false)
  None-prop = hlevel

  -- Of one span, where both lists have one and the same spans.
  same_text :
      (xs ys : List (Span Value)) (a b : String) (s t : Span Value)
      → IsWithin xs ys
      → IsWithin ys xs
      → Stands texts json k a s xs
      → Stands texts json k b t ys
      → json.span s ≡ json.span t
  same_text xs ys a b s t into onto h h' =
      less_connex (json.span s) (json.span t)
        (All-Mem _ (Below-prop t) ys s h'.least (into s h.member) h.of_key)
        (All-Mem _ (Below-prop s) xs t h.least (onto t h'.member) h'.of_key)

  -- A span that stands among the ones of a list is picked from every list of the same spans.
  not-none :
      (xs ys : List (Span Value)) (signature : String) (s : Span Value)
      → IsWithin xs ys
      → IsWithin ys xs
      → Stands texts json k signature s xs
      → Picks texts json k ys none
      → ⊥
  unfolding Picks
  not-none xs ys signature s into onto h nothing = nothing (
    signature,
    (
      All-members _ (Agrees-prop signature) ys xs onto h.agree,
      λ absent. true≢false (sym h.of_key ∙ All-Mem _ None-prop ys s absent (into s h.member)),
    ),
  )

  same_entry :
      (xs ys : List (Span Value)) (entry entry' : Option (Span Value))
      → IsWithin xs ys
      → IsWithin ys xs
      → Picks texts json k xs entry
      → Picks texts json k ys entry'
      → Option.map json.span entry ≡ Option.map json.span entry'
  unfolding Picks
  same_entry xs ys none none into onto h h' = refl
  same_entry xs ys none (some t) into onto h (b, h') = absurd (not-none ys xs b t onto into h' h)
  same_entry xs ys (some s) none into onto (a, h) h' = absurd (not-none xs ys a s into onto h h')
  same_entry xs ys (some s) (some t) into onto (a, h) (b, h') =
      ap (λ text. some text) (same_text xs ys a b s t into onto h h')

  -- Lists of the same spans, in whatever order and however often each occurs, have the same index: a
  -- key has a span in both or in neither, and the two spans have one JSON.
  pub unambiguous_span_index_order :
      (xs ys : List (Span Value))
      → IsWithin xs ys
      → IsWithin ys xs
      → Option.map json.span (lookup k (unambiguous_span_index texts json xs).index)
        ≡ Option.map json.span (lookup k (unambiguous_span_index texts json ys).index)
  unambiguous_span_index_order xs ys into onto =
      same_entry xs ys _ _ into onto (unambiguous_span_index-Picks texts json k xs)
        (unambiguous_span_index-Picks texts json k ys)
