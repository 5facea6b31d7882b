-- ===== src/Go/Text/Fields.antt =====
-- Package `strings`: `Fields`, `HasPrefix`, `Trim(s, "/")` and `Index` of one character.
use Prim.Native.Char.{code}
use Prim.Native.String.{[], ◌∷◌}
use bering.Prelude.{
  ℕ, String, ◌≡◌, refl, Bool, true, false, ◌&&◌, List, [] as nil, ◌∷◌ as ◌∷∷◌, eqb, if◌then◌else◌,
}
use bering.Go.Text.{is_space, is_blank}

add_word : String → List String → List String
add_word word words = if is_blank word then words else word ∷∷ words

-- The word that the text begins with, and the others.
split : String → String × List String
unfolding is_space add_word
split [] = ("", nil)
split (c ∷ s) =
    let (word, words) = split s in
    if is_space c then ("", add_word word words) else (c ∷ word, words)

unfoldable pub fields : String → List String
unfolding split add_word
fields s = let (word, words) = split s in add_word word words

unfoldable pub has_prefix : String → String → Bool
has_prefix [] s = true
has_prefix (c ∷ p) [] = false
has_prefix (c ∷ p) (d ∷ s) = eqb (code c) (code d) && has_prefix p s

-- What stands before the first such character, or all of the text.
unfoldable pub before_char : ℕ → String → String
before_char k [] = []
before_char k (c ∷ s) = let rest = before_char k s in if eqb (code c) k then [] else c ∷ rest

drop_left : ℕ → String → String
drop_left k [] = []
drop_left k (c ∷ s) = let rest = drop_left k s in if eqb (code c) k then rest else c ∷ s

drop_right : ℕ → String → String
drop_right k [] = []
drop_right k (c ∷ s) =
    let rest = drop_right k s in if eqb (code c) k && is_blank rest then [] else c ∷ rest

-- `strings.Trim(s, "/")`
unfoldable pub trim_slashes : String → String
unfolding drop_left drop_right
trim_slashes s = drop_right 47 (drop_left 47 s)

fields_test : fields " GET  /cart x" ≡ "GET" ∷∷ "/cart" ∷∷ "x" ∷∷ nil
unfolding fields
fields_test = refl

trim_test : (trim_slashes "/a/b//" ≡ "a/b") × (before_char 63 "/a?b" ≡ "/a")
unfolding trim_slashes before_char
trim_test = (refl, refl)
