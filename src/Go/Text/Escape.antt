-- ===== src/Go/Text/Escape.antt =====
-- `url.QueryEscape`: letters, digits and `-_.~` stay, a space becomes `+`, and every other byte of
-- the UTF-8 text becomes `%` and two hexadecimal digits.
use Prim.Native.Char.{code}
use Prim.Native.String.{[], ◌∷◌}
use bering.Prelude.{
  ℕ, zero, suc, ◌+◌, ◌/◌, ◌%◌, String, ◌<>◌, ◌≡◌, refl, Bool, ◌&&◌, ◌||◌, ltb, leb, eqb,
  if◌then◌else◌,
}

is_unreserved : ℕ → Bool
is_unreserved c =
    (leb b'a' c && leb c b'z')
    || (leb b'A' c && leb c b'Z')
    || (leb b'0' c && leb c b'9')
    || eqb c b'-'
    || eqb c b'_'
    || eqb c b'.'
    || eqb c b'~'

-- The text of the n-th character of a table.
unfoldable pub nth : String → ℕ → String
nth [] n = []
nth (c ∷ s) zero = c ∷ []
nth (c ∷ s) (suc n) = nth s n

hex_digit : ℕ → String
hex_digit = nth "0123456789ABCDEF"

escape_byte : ℕ → String
escape_byte b = "%" <> (hex_digit (b / 16) <> hex_digit (b % 16))

escape_code : ℕ → String
escape_code c =
    if ltb c 128
    then escape_byte c
    else if ltb c 2048
    then escape_byte (192 + c / 64) <> escape_byte (128 + c % 64)
    else if ltb c 65536
    then escape_byte (224 + c / 4096)
      <> (escape_byte (128 + c / 64 % 64) <> escape_byte (128 + c % 64))
    else escape_byte (240 + c / 262144)
      <> (escape_byte (128 + c / 4096 % 64)
          <> (escape_byte (128 + c / 64 % 64) <> escape_byte (128 + c % 64)))

unfoldable pub query_escape : String → String
unfolding is_unreserved escape_code escape_byte hex_digit nth
query_escape [] = []
query_escape (c ∷ s) =
    (if is_unreserved (code c)
      then c ∷ []
      else if eqb (code c) 32
      then "+"
      else escape_code (code c))
    <> query_escape s

query_escape_tests : (query_escape "/a b|c" ≡ "%2Fa+b%7Cc") × (query_escape "é" ≡ "%C3%A9")
unfolding query_escape
query_escape_tests = (refl, refl)
