-- ===== src/Go/Text.antt =====
-- Package `strings` and the built-in operations on texts. Go's texts are bytes; a text here is
-- the characters of a valid UTF-8 text, on which the bytes and the characters have one order.
pub mod Trim
pub mod Order
pub mod Escape
pub mod Fields
pub mod Decimal
use Prim.Native.Char.{Char, code}
use Prim.Native.String.append
use Prim.Native.String.{[], ◌∷◌}
use bering.Prelude.{
  ◌<>◌, ℕ, String, ◌≡◌, refl, Bool, true, false, ◌&&◌, ◌||◌, leb, eqb, if◌then◌else◌,
}

-- `unicode.IsSpace`
unfoldable pub is_space : Char → Bool
is_space ch =
    let c = code ch in
    (leb 9 c && leb c 13)
    || eqb c 32
    || eqb c 133
    || eqb c 160
    || eqb c 5760
    || (leb 8192 c && leb c 8202)
    || eqb c 8232
    || eqb c 8233
    || eqb c 8239
    || eqb c 8287
    || eqb c 12288

abbrev pub is_blank : String → Bool
is_blank [] = true
is_blank (c ∷ s) = false

pub trim_right : String → String
trim_right [] = []
trim_right (c ∷ s) = let rest = trim_right s in if is_space c && is_blank rest then [] else c ∷ rest

pub trim_left : String → String
trim_left [] = []
trim_left (c ∷ s) = let rest = trim_left s in if is_space c then rest else c ∷ s

-- `strings.TrimSpace`
unfoldable pub trim_space : String → String
unfolding trim_left trim_right is_space
trim_space s = trim_right (trim_left s)

-- `strings.ToLower` and `strings.ToUpper`. Letters outside ASCII are left as they are.
translate : String → String → Char → Char
translate (x ∷ xs) (y ∷ ys) c = if eqb (code x) (code c) then y else translate xs ys c
translate _ _ c = c

map_chars : (Char → Char) → String → String
map_chars f [] = []
map_chars f (c ∷ s) = f c ∷ map_chars f s

abbrev lowers : String
lowers = "abcdefghijklmnopqrstuvwxyz"

abbrev uppers : String
uppers = "ABCDEFGHIJKLMNOPQRSTUVWXYZ"

unfoldable pub to_lower : String → String
unfolding map_chars translate
to_lower s = map_chars (translate uppers lowers) s

unfoldable pub to_upper : String → String
unfolding map_chars translate
to_upper s = map_chars (translate lowers uppers) s

-- `strings.Contains(s, "|")`, of a single character
unfoldable pub contains_char : ℕ → String → Bool
contains_char k [] = false
contains_char k (c ∷ s) = eqb (code c) k || contains_char k s

-- A text is empty when both its parts are.
pub is_blank-append : (a b : String) → is_blank (a <> b) ≡ (is_blank a && is_blank b)
is_blank-append [] b = λ i. is_blank (append.nil b i)
is_blank-append (c ∷ a) b = λ i. is_blank (append.cons c a b i)

trim_space_tests : (trim_space "  a b\t" ≡ "a b") × (trim_space "\n" ≡ "") × (trim_space "x" ≡ "x")
unfolding trim_space
trim_space_tests = (refl, refl, refl)

case_tests : (to_lower "Topology_API" ≡ "topology_api") × (to_upper "get" ≡ "GET")
unfolding to_lower to_upper
case_tests = (refl, refl)
