-- ===== src/Discovery/Scan/Support.antt =====
-- discovery.go: what the first loop of `Discover` counts of a service.
use bering.Prelude.{
  ◌+◌, ◌≤◌, ◌≡◌, refl, sym, ap, ◌∙◌, subst, String, Bool, true, false, ◌&&◌, ◌||◌, not, Option,
  some, List, [], ◌∷◌, ◌++◌, length, keep, keep-append, length-keep, length-append, append-nil,
  append_assoc, leb, All, All-imp, All-append, arith, Bool-cases, inl, inr, ◌==◌, eq_iff,
  if◌then◌else◌,
}
use bering.Go.Int.{pos, add, max_int, add_one}
use bering.Go.Float.{FloatOps}
use bering.Go.Text.{trim_space, is_blank}
use bering.Go.Time.{Time, is_zero}
use bering.Go.Map.{Map, lookup, lookup-put}
use bering.Runtime.Types.{Span}
use bering.Runtime.Window.{event_time}
use bering.Discovery.Attributes.{Texts}
use bering.Discovery.Accumulate.{
  Seen, ServiceAccumulator, service_start, update_service_accumulator, observe_time,
}
use bering.Discovery.Scan.{count_service, count_services}

-- In runtime mode a time lies between the first and the last that were seen, unless it is zero.
unfoldable pub Within : Bool → Seen → Time → Type 0
Within false seen t = Unit
Within true seen t =
    (is_zero t || (not (is_zero seen.first_seen) && leb seen.first_seen t && leb t seen.last_seen))
    ≡ true

Within-observed :
    (runtime_mode : Bool) (seen : Seen) (t : Time)
    → Within runtime_mode (observe_time seen t runtime_mode) t
unfolding Within observe_time
Within-observed false seen t = tt
Within-observed true seen t = ground arith

Within-observe_time :
    (runtime_mode : Bool) (seen : Seen) (ts t : Time)
    → Within runtime_mode seen t
    → Within runtime_mode (observe_time seen ts runtime_mode) t
unfolding Within observe_time
Within-observe_time false seen ts t h = tt
Within-observe_time true seen ts t h = ground (arith, h)

length-keep-last :
    {A : Type 0} (p : A → Bool) (xs : List A) (x : A) {b : Bool}
    → p x ≡ b
    → length (keep p (xs ++ x ∷ [])) ≡ length (keep p xs) + (if b then 1 else 0)
unfolding keep
length-keep-last p xs x is =
    ap length (keep-append p xs (x ∷ [])) ∙ length-append (keep p xs) _ ∙ ground (arith, is)

module _ {Value : Type 0} where
  -- The span is of this service.
  abbrev pub of_service : String → Span Value → Bool
  of_service k span = not (is_blank (trim_space span.service)) && (trim_space span.service == k)

  module _ (texts : Texts Value) (fl : FloatOps) (runtime_mode : Bool) (k : String) where
    -- What an entry tells of the spans that were counted: how many are of the service, and that
    -- their times lie between the first and the last.
    pub record Supports (spans : List (Span Value)) (held : Option ServiceAccumulator)
        : Type 0 where
      pub counted :
          (service_start texts held).observations ≡ pos (length (keep (of_service k) spans))
      pub within :
          All
            (λ s.
              of_service k s ≡ true
              → Within runtime_mode (service_start texts held).seen (event_time s 0))
            spans

    Supports-skip :
        (x : Span Value) (spans : List (Span Value)) (held : Option ServiceAccumulator)
        → of_service k x ≡ false
        → Supports spans held
        → Supports (spans ++ x ∷ []) held
    unfolding keep
    Supports-skip x spans held other h = record {
      counted = h.counted ∙ ap pos (omega (arith, length-keep-last (of_service k) spans x other));
      within = All-append _ spans (x ∷ []) h.within (λ is. cc, tt);
    }

    Supports-count :
        (x : Span Value) (spans : List (Span Value)) (held : Option ServiceAccumulator)
        → of_service k x ≡ true
        → length spans + 1 ≤ max_int
        → Supports spans held
        → Supports (spans ++ x ∷ []) (some (update_service_accumulator texts held x runtime_mode))
    unfolding update_service_accumulator service_start
    Supports-count x spans held is fits h = record {
      counted =
          ap (λ n. add n (pos 1)) h.counted
          ∙ add_one (length (keep (of_service k) spans))
              (omega (arith, fits, length-keep (of_service k) spans))
          ∙ ap pos (omega (arith, length-keep-last (of_service k) spans x is));
      within =
          All-append _ spans (x ∷ [])
            (All-imp _ _ spans (λ s f of. Within-observe_time runtime_mode _ _ _ (f of)) h.within)
            (λ of. Within-observed runtime_mode _ (event_time x 0), tt);
    }

    Supports-step :
        (x : Span Value) (spans : List (Span Value)) (stats : Map ServiceAccumulator)
        → length spans + 1 ≤ max_int
        → Supports spans (lookup k stats)
        → Supports (spans ++ x ∷ []) (
            lookup k (
              if is_blank (trim_space x.service)
              then stats
              else count_service texts fl runtime_mode stats x))
    unfolding count_service
    Supports-step x spans stats fits h =
        let service = trim_space x.service in
        let counted : String → ServiceAccumulator =
          λ j. update_service_accumulator texts (lookup j stats) x runtime_mode in
        elim (Bool-cases (is_blank service)) [
          | inl blank ↦ rw blank (Supports-skip x spans (lookup k stats) (ground (arith, blank)) h)
          | inr full ↦ elim (Bool-cases (service == k)) [
            | inr other ↦
                rw (full, lookup-put service k (counted service) stats, other)
                  (Supports-skip x spans (lookup k stats) (ground (arith, other)) h)
            | inl same ↦
                rw (full, lookup-put service k (counted service) stats, same)
                  (subst (λ j. Supports (spans ++ x ∷ []) (some (counted j)))
                    (sym ((eq_iff service k).0 same))
                    (Supports-count x spans (lookup k stats) (ground (arith, full, same)) fits h))
          ]
        ]

    Supports-count_services :
        (rest spans : List (Span Value)) (stats : Map ServiceAccumulator)
        → length spans + length rest ≤ max_int
        → Supports spans (lookup k stats)
        → Supports (spans ++ rest) (lookup k (count_services texts fl runtime_mode rest stats))
    unfolding count_services count_service
    Supports-count_services [] spans stats fits h =
        subst (λ xs. Supports xs (lookup k stats)) (sym (append-nil spans)) h
    Supports-count_services (x ∷ rest) spans stats fits h =
        subst (λ xs. Supports xs (lookup k (count_services texts fl runtime_mode (x ∷ rest) stats)))
          (append_assoc spans (x ∷ []) rest)
          (Supports-count_services rest (spans ++ x ∷ [])
            (if is_blank (trim_space x.service)
              then stats
              else count_service texts fl runtime_mode stats x)
            (omega (arith, fits, length-append spans (x ∷ [])))
            (Supports-step x spans stats (omega (arith, fits)) h))

    -- The entry of a service counts exactly the spans of the service, and in runtime mode the time of
    -- each of them, if it has one, lies between the first and the last time that it keeps, if there
    -- are no more spans than an int counts.
    pub count_services-Supports :
        (spans : List (Span Value))
        → length spans ≤ max_int
        → Supports spans (lookup k (count_services texts fl runtime_mode spans []))
    unfolding lookup service_start keep
    count_services-Supports spans fits =
        Supports-count_services spans [] [] (omega (arith, fits))
          (record { counted = refl; within = tt })
