-- ===== src/Fetch/Headers.antt =====
-- internal/fetch/fetch.go: the request headers that a recipe may set. A text is the code points of
-- the value; one with others than ASCII, of which Go counts the bytes, is refused whatever its
-- length.
pub mod Printable
use rss_workshop.Common.{
  ℕ, suc, ◌+◌, Bool, true, false, not, ◌&&◌, ◌||◌, Option, none, some, List, [], ◌∷◌, ◌==◌, leb,
  ltb, if◌then◌else◌, length,
}
use rss_workshop.Model.Text.{Text, trim_space, text_eq}

abbrev pub max_user_agent : ℕ
max_user_agent = 256

abbrev pub max_accept_language : ℕ
max_accept_language = 128

abbrev pub max_language_ranges : ℕ
max_language_ranges = 10

pub data HeaderError : Type 0 where
  bad_user_agent user_agent_space language_space long_language many_languages : HeaderError
  bad_language : ℕ → HeaderError

unfoldable pub printable : ℕ → Bool
printable c = leb 32 c && leb c 126

unfoldable pub all_of : (ℕ → Bool) → Text → Bool
all_of p [] = true
all_of p (c ∷ t) = p c && all_of p t

-- `CheckUserAgent` and `ValidateUserAgent`
unfoldable pub check_user_agent : Text → Text × Bool
unfolding printable all_of trim_space
check_user_agent raw =
    let ua = trim_space raw in (ua, leb (length ua) max_user_agent && all_of printable ua)

unfoldable pub validate_user_agent : Text → Option HeaderError
unfolding check_user_agent text_eq
validate_user_agent ua =
    let (checked, good) = check_user_agent ua in
    if not good
    then some bad_user_agent
    else if not (text_eq checked ua)
    then some user_agent_space
    else none

-- strings.Split, TrimLeft, TrimRight and Cut, of one byte.
abbrev pub onto_first : ℕ → List Text → List Text
onto_first c [] = (c ∷ []) ∷ []
onto_first c (t ∷ ts) = (c ∷ t) ∷ ts

unfoldable pub split_on : ℕ → Text → List Text
split_on sep [] = [] ∷ []
split_on sep (c ∷ t) =
    let rest = split_on sep t in if c == sep then [] ∷ rest else onto_first c rest

unfoldable pub trim_left_spaces : Text → Text
trim_left_spaces [] = []
trim_left_spaces (c ∷ t) = let rest = trim_left_spaces t in if c == 32 then rest else c ∷ t

abbrev pub add_front : ℕ → Text → Text
add_front c [] = if c == 32 then [] else c ∷ []
add_front c (d ∷ t) = c ∷ d ∷ t

unfoldable pub trim_right_spaces : Text → Text
trim_right_spaces [] = []
trim_right_spaces (c ∷ t) = add_front c (trim_right_spaces t)

-- `none` for what follows when the byte is not there.
unfoldable pub cut : ℕ → Text → Text × Option Text
cut sep [] = ([], none)
cut sep (c ∷ t) =
    let (before, after) = cut sep t in if c == sep then ([], some t) else (c ∷ before, after)

abbrev pub is_digit : ℕ → Bool
is_digit c = leb b'0' c && leb c b'9'

abbrev pub is_letter : ℕ → Bool
is_letter c = (leb b'a' c && leb c b'z') || (leb b'A' c && leb c b'Z')

-- `decimals` of `qvalue`, or none of them.
abbrev pub after_point : Option Text → Text
after_point none = []
after_point (some t) = t

unfoldable pub decimals_valid : (one : Bool) → Text → Bool
decimals_valid one [] = true
decimals_valid one (c ∷ t) = is_digit c && (not one || c == b'0') && decimals_valid one t

unfoldable pub weight_valid : Text → Option Text → Bool
unfolding decimals_valid text_eq
weight_valid whole decimals =
    (text_eq whole (b'0' ∷ []) || text_eq whole (b'1' ∷ []))
    && leb (length (after_point decimals)) 3
    && decimals_valid (text_eq whole (b'1' ∷ [])) (after_point decimals)

unfoldable pub qvalue : Text → Bool
unfolding weight_valid cut
qvalue (q ∷ e ∷ c ∷ t) =
    (q == b'q' || q == b'Q')
    && e == b'='
    && (let (whole, decimals) = cut b'.' (c ∷ t) in weight_valid whole decimals)
qvalue _ = false

unfoldable pub subtag_valid : (first : Bool) → Text → Bool
unfolding all_of
subtag_valid first sub =
    leb 1 (length sub)
    && leb (length sub) 8
    && all_of (λ c. is_letter c || (not first && is_digit c)) sub

unfoldable pub subtags_valid : (first : Bool) → List Text → Bool
unfolding subtag_valid
subtags_valid first [] = true
subtags_valid first (sub ∷ subs) = subtag_valid first sub && subtags_valid false subs

unfoldable pub tag_valid : Text → Bool
unfolding subtags_valid split_on text_eq
tag_valid tag = text_eq tag (b'*' ∷ []) || subtags_valid true (split_on b'-' tag)

abbrev pub optional_weight : Option Text → Bool
optional_weight none = true
optional_weight (some t) = qvalue (trim_left_spaces t)

unfoldable pub language_range : Text → Bool
unfolding tag_valid qvalue cut trim_right_spaces trim_left_spaces
language_range s =
    let (tag, weight) = cut b';' s in optional_weight weight && tag_valid (trim_right_spaces tag)

-- The loop over the ranges, from the one of index `i`.
unfoldable pub ranges_error : ℕ → List Text → Option HeaderError
unfolding language_range
ranges_error i [] = none
ranges_error i (r ∷ rs) =
    let rest = ranges_error (suc i) rs in
    if language_range (trim_right_spaces (trim_left_spaces r))
    then rest
    else some (bad_language (i + 1))

unfoldable pub validate_accept_language : Text → Option HeaderError
unfolding ranges_error split_on trim_space text_eq
validate_accept_language [] = none
validate_accept_language (c ∷ t) =
    if not (text_eq (trim_space (c ∷ t)) (c ∷ t))
    then some language_space
    else if ltb max_accept_language (length (c ∷ t))
    then some long_language
    else if ltb max_language_ranges (length (split_on b',' (c ∷ t)))
    then some many_languages
    else ranges_error 0 (split_on b',' (c ∷ t))
