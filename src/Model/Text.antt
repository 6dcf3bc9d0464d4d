-- ===== src/Model/Text.antt =====
-- Text that the program walks: its code points. A byte that is not part of valid UTF-8 stands as
-- a number that is no code point. Texts that are only compared are native strings.
use rss_workshop.Common.{
  ℕ, Bool, true, false, ◌&&◌, ◌||◌, List, [], ◌∷◌, ltb, leb, ◌==◌, if◌then◌else◌,
}

abbrev pub Text : Type 0
Text = List ℕ

-- utf8.ValidRune
unfoldable pub valid_rune : ℕ → Bool
valid_rune c = ltb c 0xd800 || (ltb 0xdfff c && ltb c 0x110000)

-- utf8.ValidString
unfoldable pub valid_string : Text → Bool
unfolding valid_rune
valid_string [] = true
valid_string (c ∷ t) = valid_rune c && valid_string t

-- unicode.IsSpace
unfoldable pub is_space : ℕ → Bool
is_space c =
    (leb 9 c && leb c 13)
    || c == 0x20
    || c == 0x85
    || c == 0xa0
    || c == 0x1680
    || (leb 0x2000 c && leb c 0x200a)
    || c == 0x2028
    || c == 0x2029
    || c == 0x202f
    || c == 0x205f
    || c == 0x3000

unfoldable pub trim_left : Text → Text
unfolding is_space
trim_left [] = []
trim_left (c ∷ t) = if is_space c then trim_left t else c ∷ t

-- Drops the spaces at the end: a space goes when all that follows it went.
unfoldable pub trim_right : Text → Text
unfolding is_space
trim_right [] = []
trim_right (c ∷ t) = drop_last (trim_right t)
  where
    drop_last : Text → Text
    drop_last [] = if is_space c then [] else c ∷ []
    drop_last (d ∷ r) = c ∷ d ∷ r

-- strings.TrimSpace
unfoldable pub trim_space : Text → Text
unfolding trim_left trim_right
trim_space t = trim_right (trim_left t)

unfoldable pub has_prefix : Text → Text → Bool
has_prefix t [] = true
has_prefix [] (c ∷ p) = false
has_prefix (d ∷ t) (c ∷ p) = (d == c) && has_prefix t p

-- strings.Contains
unfoldable pub contains_text : Text → Text → Bool
unfolding has_prefix
contains_text [] p = has_prefix [] p
contains_text (c ∷ t) p = has_prefix (c ∷ t) p || contains_text t p

-- `==` of Go and `=` of SQL on texts.
unfoldable pub text_eq : Text → Text → Bool
text_eq [] [] = true
text_eq [] (d ∷ u) = false
text_eq (c ∷ t) [] = false
text_eq (c ∷ t) (d ∷ u) = (c == d) && text_eq t u
