-- ===== src/Model/Normalize.antt =====
-- internal/model/model.go: the `Normalize` and `IsZero` methods, and `SortDeterministic`.
pub mod Texts
pub mod Methods
pub mod Sort
pub mod Targets
pub mod Resolution
pub mod Order
