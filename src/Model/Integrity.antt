-- ===== src/Model/Integrity.antt =====
-- The references between the parts of a model: what consumers of the artifact rely on.
use bering.Prelude.{
  String, ◌≡◌, refl, ◌↔◌, arith, eq_iff, true, false, List, [], ◌∷◌, map, All, Option, none, some,
}
use bering.Go.Text.{trim_space}
use bering.Go.Map.{contains}
use bering.Model.Types.{Edge, Endpoint, EndpointSemantics, EndpointMetadata, ResilienceModel}

abbrev pub Names : List String → Edge → Type 0
Names ids e = (contains ids e.from ≡ true) × (contains ids e.to ≡ true)

abbrev pub Enters : List String → Endpoint → Type 0
Enters ids e = contains ids e.entry_service ≡ true

-- Every edge joins two services of the model, and every endpoint enters one.
pub record HasIntegrity (m : ResilienceModel) : Type 0 where
  pub edges : All (Names (map (λ s. s.id) m.services)) m.edges
  pub endpoints : All (Enters (map (λ s. s.id) m.services)) m.endpoints

-- The mandatory targets that the metadata of an endpoint names.
abbrev pub semantic_targets : Option EndpointSemantics → List String
semantic_targets none = []
semantic_targets (some semantics) = semantics.mandatory_targets

abbrev pub mandatory_targets : Option EndpointMetadata → List String
mandatory_targets none = []
mandatory_targets (some meta) = semantic_targets meta.semantics

-- The text names a service, once the blanks around it are gone.
abbrev pub IsTarget : List String → String → Type 0
IsTarget ids t = contains ids (trim_space t) ≡ true

abbrev pub Targets : List String → Endpoint → Type 0
Targets ids e = All (IsTarget ids) (mandatory_targets e.metadata)

-- Every reference to a service is resolved: the ends of the edges, the entry services of the
-- endpoints, and their mandatory targets.
pub record IsResolved (m : ResilienceModel) : Type 0 where
  pub integrity : HasIntegrity m
  pub targets : All (Targets (map (λ s. s.id) m.services)) m.endpoints

-- No text of a list occurs twice.
abbrev pub Distinct : List String → Type 0
Distinct [] = Unit
Distinct (x ∷ xs) = (contains xs x ≡ false) × Distinct xs

-- `Distinct`, as a loop checks it: each text is new beside those that were seen.
abbrev pub Fresh : List String → List String → Type 0
Fresh seen [] = Unit
Fresh seen (x ∷ xs) = (contains seen x ≡ false) × Fresh (x ∷ seen) xs

abbrev pub NoneIn : List String → List String → Type 0
NoneIn seen xs = All (λ y. contains seen y ≡ false) xs

absent_of_none : (x : String) (seen xs : List String) → NoneIn (x ∷ seen) xs → contains xs x ≡ false
unfolding contains
absent_of_none x seen [] h = refl
absent_of_none x seen (y ∷ ys) h =
    ground (arith, eq_iff x y, eq_iff y x, absent_of_none x seen ys h.1)

NoneIn-tail : (x : String) (seen xs : List String) → NoneIn (x ∷ seen) xs → NoneIn seen xs
unfolding contains
NoneIn-tail x seen [] h = tt
NoneIn-tail x seen (y ∷ ys) h = ground (arith, NoneIn-tail x seen ys h.1)

NoneIn-cons :
    (x : String) (seen xs : List String)
    → contains xs x ≡ false
    → NoneIn seen xs
    → NoneIn (x ∷ seen) xs
unfolding contains
NoneIn-cons x seen [] h n = tt
NoneIn-cons x seen (y ∷ ys) h n = ground (arith, eq_iff x y, eq_iff y x, NoneIn-cons x seen ys)

Fresh-iff : (seen xs : List String) → Fresh seen xs ↔ (Distinct xs × NoneIn seen xs)
Fresh-iff seen [] = (λ h. (tt, tt), λ h. tt)
Fresh-iff seen (x ∷ xs) = (
  λ h.
      let (d, n) = (Fresh-iff (x ∷ seen) xs).0 h.1 in
      ((absent_of_none x seen xs n, d), (h.0, NoneIn-tail x seen xs n)),
  λ h. (h.1.0, (Fresh-iff (x ∷ seen) xs).1 (h.0.1, NoneIn-cons x seen xs h.0.0 h.1.1)),
)

NoneIn-nil : (xs : List String) → NoneIn [] xs
unfolding contains
NoneIn-nil [] = tt
NoneIn-nil (x ∷ xs) = (refl, NoneIn-nil xs)

pub Fresh-nil_iff : (xs : List String) → Fresh [] xs ↔ Distinct xs
Fresh-nil_iff xs = (λ h. ((Fresh-iff [] xs).0 h).0, λ d. (Fresh-iff [] xs).1 (d, NoneIn-nil xs))
