-- ===== src/Overlay/Normalize/Identified.antt =====
-- internal/overlay/overlay.go, `File.Normalize`: what is true of the files that it accepts.
use bering.Prelude.{false, ◌≡◌, All}
use bering.Go.Text.{is_blank}
use bering.Overlay.Types.{File}
use bering.Overlay.Normalize.{few}

-- Every item has an identifier, and a service that is given replicas at least one.
pub record IsIdentified (f : File) : Type 0 where
  pub services : All (λ s. (is_blank s.id ≡ false) × (few s.replicas ≡ false)) f.services
  pub edges : All (λ e. is_blank e.id ≡ false) f.edges
  pub endpoints : All (λ e. is_blank e.id ≡ false) f.endpoints
