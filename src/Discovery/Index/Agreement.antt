-- ===== src/Discovery/Index/Agreement.antt =====
-- observations.go, `unambiguousSpanIndex`: spans of one key that agree.
use mathlib.Core.Logic.Or
use mathlib.Core.HLevel.{⊥_prop}
use mathlib.Core.List.{
  Mem, mem-cons_self, mem-append_left, mem-append_right, not-mem-nil, eq-or-mem_of_mem-cons,
}
use bering.Prelude.{
  All-front, All-last, All-both, ◌≡◌, sym, subst, String, true, false, none, some, List, [], ◌∷◌,
  ◌++◌, is_empty, All, All-imp, All-append, arith, eq_iff, Bool-cases, inl, inr,
}
use bering.Go.Text.Order.{less, less_irrefl, less_below}
use bering.Runtime.Types.{Span}
use bering.Discovery.Attributes.{Texts}
use bering.Discovery.Index.{Marshal, differs, lesser, span_signature}
use bering.Discovery.Index.Slots.{matches}

not-Mem {ℓ} : {A : Type ℓ} (x : A) (xs : List A) → All (λ t. t ≡ x → ⊥) xs → Mem x xs → ⊥
not-Mem x [] h m = not-mem-nil m
not-Mem x (y ∷ ys) h m =
    Or.elim ⊥_prop (eq-or-mem_of_mem-cons m) (λ e. h.0 (sym e)) (not-Mem x ys h.1)

module _ {Value : Type 0} (texts : Texts Value) (json : Marshal Value) where
  -- A span without conflicts and with this signature.
  abbrev pub Agrees : String → Span Value → Type 0
  Agrees signature t =
      (is_empty t.attribute_conflicts ≡ true) × (span_signature texts json t ≡ some signature)

  module _ (k : String) where
    -- What holds of the spans of a list that have this key.
    abbrev pub AtKey : (Span Value → Type 0) → List (Span Value) → Type 0
    AtKey P spans = All (λ t. matches texts json k t ≡ true → P t) spans

    -- The spans of the key agree, and this is one of them, with the least text.
    pub record Stands (signature : String) (s : Span Value) (spans : List (Span Value))
        : Type 0 where
      pub agree : AtKey (Agrees signature) spans
      pub of_key : matches texts json k s ≡ true
      pub member : Mem s spans
      pub least : AtKey (λ t. less (json.span t) (json.span s) ≡ false) spans

    pub Stands-first :
        (x : Span Value) (spans : List (Span Value)) (signature : String)
        → matches texts json k x ≡ true
        → Agrees signature x
        → AtKey (λ t. ⊥) spans
        → Stands signature x (spans ++ x ∷ [])
    Stands-first x spans signature at agrees empty = record {
      agree =
          All-append _ spans (x ∷ []) (All-imp _ _ spans (λ t no m. absurd (no m)) empty)
            (λ m. agrees, tt);
      of_key = at;
      member = mem-append_right spans mem-cons_self;
      least =
          All-append _ spans (x ∷ []) (All-imp _ _ spans (λ t no m. absurd (no m)) empty)
            (λ m. less_irrefl (json.span x), tt);
    }

    pub Stands-next :
        (x : Span Value) (spans : List (Span Value)) (signature : String) (s : Span Value)
        → matches texts json k x ≡ true
        → Agrees signature x
        → Stands signature s spans
        → Stands signature (lesser texts json x (some s)) (spans ++ x ∷ [])
    unfolding lesser
    Stands-next x spans signature s at agrees h =
        let agree = All-append _ spans (x ∷ []) h.agree (λ m. agrees, tt) in
        elim (Bool-cases (less (json.span x) (json.span s))) [
          | inl before ↦
              let least =
                All-imp _ _ spans
                  (λ t f m. less_below (json.span s) (json.span t) (json.span x) (f m) before)
                  h.least in
              rw before (record {
                agree = agree;
                of_key = at;
                member = mem-append_right spans mem-cons_self;
                least = All-append _ spans (x ∷ []) least (λ m. less_irrefl (json.span x), tt);
              })
          | inr after ↦ rw after (record {
            agree = agree;
            of_key = h.of_key;
            member = mem-append_left (x ∷ []) h.member;
            least = All-append _ spans (x ∷ []) h.least (λ m. after, tt);
          })
        ]

    -- Two spans of the key that differ in their signatures cannot both agree.
    pub not-Agrees :
        (x : Span Value) (spans : List (Span Value)) (signature previous : String) (s : Span Value)
        → matches texts json k x ≡ true
        → span_signature texts json x ≡ some signature
        → differs (some previous) signature ≡ true
        → Stands previous s spans
        → (other : String) → AtKey (Agrees other) (spans ++ x ∷ [])
        → ⊥
    unfolding differs
    not-Agrees x spans signature previous s at signed differs h other all =
        let last = All-last _ spans x all at in
        not-Mem s spans
          (All-both _ _ _ spans
            (λ t mine theirs same.
              let mt =
                subst (λ (t : Span Value). matches texts json k t ≡ true) (sym same) h.of_key in
              ground (arith, eq_iff signature previous, (mine mt).1, (theirs mt).1, last.1))
            h.agree (All-front _ spans (x ∷ []) all))
          h.member

    pub same_of : (a b : String) → differs (some a) b ≡ false → a ≡ b
    unfolding differs
    same_of a b h = ground (arith, eq_iff b a)

    pub not-plain :
        (x : Span Value) (spans : List (Span Value)) (s : String)
        → matches texts json k x ≡ true
        → is_empty x.attribute_conflicts ≡ false
        → AtKey (Agrees s) (spans ++ x ∷ [])
        → ⊥
    not-plain x spans s at conflict all =
        let last = All-last _ spans x all at in ground (arith, conflict, last.0)

    pub not-signed :
        (x : Span Value) (spans : List (Span Value)) (s : String)
        → matches texts json k x ≡ true
        → span_signature texts json x ≡ none
        → AtKey (Agrees s) (spans ++ x ∷ [])
        → ⊥
    not-signed x spans s at unsigned all =
        let last = All-last _ spans x all at in ground (arith, unsigned, last.1)
