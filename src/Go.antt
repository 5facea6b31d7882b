-- ===== src/Go.antt =====
-- What the program uses of Go: machine integers, floats, times, maps, texts and sorting.
pub mod Int
pub mod Float
pub mod Text
pub mod Time
pub mod Map
pub mod Sort
