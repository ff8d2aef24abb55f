-- ===== src/Strings.antt =====
-- What the code uses of Go's package `strings`. Upper and lower case follow Unicode wherever one
-- of the two letters is ASCII; a letter whose other case lies outside ASCII as well is kept.
use enterprise_security_reco.Prelude.{
  ℕ, Char, code, String, Bool, true, false, ◌&&◌, ◌||◌, List, [], ◌∷◌, leb, nat_eq, if◌then◌else◌,
}

unfoldable pub is_empty : String → Bool
is_empty String.[] = true
is_empty (String.◌∷◌ c s) = false

-- `unicode.IsSpace`.
unfoldable pub is_space : Char → Bool
is_space c =
    let n = code c in
    leb 9 n && leb n 13
    || nat_eq n 32
    || nat_eq n 0x85
    || nat_eq n 0xA0
    || nat_eq n 0x1680
    || leb 0x2000 n && leb n 0x200a
    || nat_eq n 0x2028
    || nat_eq n 0x2029
    || nat_eq n 0x202f
    || nat_eq n 0x205f
    || nat_eq n 0x3000

unfoldable pub trim_left : String → String
unfolding is_space
trim_left String.[] = String.[]
trim_left (String.◌∷◌ c s) = let rest = trim_left s in if is_space c then rest else String.◌∷◌ c s

unfoldable pub trim_right : String → String
unfolding is_space is_empty
trim_right String.[] = String.[]
trim_right (String.◌∷◌ c s) =
    let rest = trim_right s in if is_space c && is_empty rest then String.[] else String.◌∷◌ c rest

unfoldable pub trim_space : String → String
unfolding trim_left trim_right
trim_space s = trim_right (trim_left s)

abbrev push_word : String → List String → List String
push_word String.[] ws = ws
push_word (String.◌∷◌ c w) ws = String.◌∷◌ c w ∷ ws

-- The word that the text begins with, and the words after it.
words : String → String × List String
unfolding is_space
words String.[] = (String.[], [])
words (String.◌∷◌ c s) =
    let (w, ws) = words s in
    if is_space c then (String.[], push_word w ws) else (String.◌∷◌ c w, ws)

unfoldable pub fields : String → List String
unfolding words
fields s = let (w, ws) = words s in push_word w ws

-- `strings.Cut` at a separator of one character: before, after, and whether it was found.
unfoldable pub cut : ℕ → String → String × String × Bool
cut sep String.[] = (String.[], String.[], false)
cut sep (String.◌∷◌ c s) =
    let (before, after, found) = cut sep s in
    if nat_eq (code c) sep then (String.[], s, true) else (String.◌∷◌ c before, after, found)

abbrev extend : Char → List String → List String
extend c [] = String.◌∷◌ c String.[] ∷ []
extend c (w ∷ ws) = String.◌∷◌ c w ∷ ws

-- `strings.Split` at a separator of one character: never the empty list.
unfoldable pub split : ℕ → String → List String
split sep String.[] = String.[] ∷ []
split sep (String.◌∷◌ c s) =
    let parts = split sep s in if nat_eq (code c) sep then String.[] ∷ parts else extend c parts

unfoldable pub has_prefix : String → String → Bool
has_prefix s String.[] = true
has_prefix String.[] (String.◌∷◌ d t) = false
has_prefix (String.◌∷◌ c s) (String.◌∷◌ d t) = nat_eq (code c) (code d) && has_prefix s t

-- The letter at the place in the second text that `c` has in the first; `c` if it has none.
translate : String → String → Char → Char
translate String.[] targets c = c
translate (String.◌∷◌ a sources) String.[] c = c
translate (String.◌∷◌ a sources) (String.◌∷◌ b targets) c =
    let rest = translate sources targets c in if nat_eq (code a) (code c) then b else rest

map_chars : (Char → Char) → String → String
map_chars f String.[] = String.[]
map_chars f (String.◌∷◌ c s) = String.◌∷◌ (f c) (map_chars f s)

unfoldable pub to_lower : String → String
unfolding map_chars translate
to_lower = map_chars (translate "ABCDEFGHIJKLMNOPQRSTUVWXYZİK" "abcdefghijklmnopqrstuvwxyzik")

unfoldable pub to_upper : String → String
unfolding map_chars translate
to_upper = map_chars (translate "abcdefghijklmnopqrstuvwxyzıſ" "ABCDEFGHIJKLMNOPQRSTUVWXYZIS")
