-- ===== src/Runtime/Publish/Outcome.antt =====
-- engine.go: the outcomes of the calls that publish, and how they compose.
use bering.Prelude.{◌≡◌, refl, ap, ◌∙◌, Option, some, ◌∷◌, ok, err, inl, inr, ◌⊎◌}
use bering.Snapshot.Types.{Envelope}
use bering.Snapshot.Diff.{compute_diff}
use bering.Snapshot.Normalize.{sort_deterministic}
use bering.Runtime.Envelope.{compare_and_sort}
use bering.Runtime.Session.{Host, Session, Call, Outcome, continue, ◌then◌}
use bering.Runtime.Session.Quiet.{publications, IsFramed, IsQuiet, IsFramed-trans, Silent}

module _ {Value : Type 0} (host : Host Value) where
  -- The counts of the envelope are those of a comparison with the previous one, made before the
  -- envelope was normalized, and the normal form changed none of them.
  pub record IsCompared (previous : Option Envelope) (env : Envelope) : Type 0 where
    pub raw : Envelope
    pub diff : env.diff ≡ compute_diff host.equal previous raw
    pub normal : env ≡ sort_deterministic host.float (record raw { diff = env.diff })

  pub compare_and_sort-IsCompared :
      (previous : Option Envelope) (raw : Envelope)
      → IsCompared previous (compare_and_sort host previous raw)
  unfolding compare_and_sort sort_deterministic
  compare_and_sort-IsCompared previous raw = record { raw = raw; diff = refl; normal = refl }

  -- One envelope was published, compared with the previous one, and is the previous one now.
  pub record IsPublishing (previous : Option Envelope) (s s' : Session Value) : Type 0 where
    pub env : Envelope
    pub compared : IsCompared previous env
    pub kept : s'.engine.previous ≡ some env
    pub published : publications s'.log ≡ env ∷ publications s.log

  -- Nothing was published.
  abbrev pub IsUnpublished : Session Value → Session Value → Type 0
  IsUnpublished s s' =
      (s'.engine.previous ≡ s.engine.previous) × (publications s'.log ≡ publications s.log)

  -- Nothing was published, or one envelope was.
  pub record IsOnce (previous : Option Envelope) (s s' : Session Value) : Type 0 where
    pub frame : IsFramed s.engine s'.engine
    pub outcome : IsUnpublished s s' ⊎ IsPublishing previous s s'

  unfoldable pub Once : {A : Type 0} → Option Envelope → Call Value A → Type 0
  Once previous call = (s : Session Value) → IsOnce previous s (call s).1

  pub Silent-Once :
      {A : Type 0} (previous : Option Envelope) (call : Call Value A)
      → Silent call
      → Once previous call
  unfolding Silent Once
  Silent-Once previous call h s = record {
    frame = (h s).frame;
    outcome = inl ((h s).previous, (h s).published);
  }

  IsQuiet-trans-IsOnce :
      (previous : Option Envelope) {s s' s'' : Session Value}
      → IsQuiet s s'
      → IsOnce previous s' s''
      → IsOnce previous s s''
  IsQuiet-trans-IsOnce previous q o = record {
    frame = IsFramed-trans q.frame o.frame;
    outcome = elim (o.outcome) [
      | inl quiet ↦ inl (quiet.0 ∙ q.previous, quiet.1 ∙ q.published)
      | inr p ↦ inr (record {
        env = p.env;
        compared = p.compared;
        kept = p.kept;
        published = p.published ∙ ap (λ log. p.env ∷ log) q.published;
      })
    ];
  }

  module _ {A B : Type 0} (previous : Option Envelope) where
    continue-IsOnce :
        (s : Session Value) (outcome : Outcome Value A) (next : A → Call Value B)
        → IsQuiet s outcome.1
        → ((a : A) → Once previous (next a))
        → IsOnce previous s (continue outcome next).1
    unfolding continue Once
    continue-IsOnce s (ok a, s') next h k = IsQuiet-trans-IsOnce previous h (k a s')
    continue-IsOnce s (err e, s') next h k = record {
      frame = h.frame;
      outcome = inl (h.previous, h.published);
    }

    pub then-Once :
        (call : Call Value A) (next : A → Call Value B)
        → Silent call
        → ((a : A) → Once previous (next a))
        → Once previous (call then next)
    unfolding ◌then◌ Once Silent
    then-Once call next h k s = continue-IsOnce s (call s) next (h s) k
