-- ===== src/Filter/Text.antt =====
-- internal/filter/text.go: the value of a field as the rules see it. The HTML parser and the
-- case-folding table are not in the repository and are fields of `Libraries`.
use rss_workshop.Common.{
  ℕ, zero, suc, min, String, str_eq, Bool, true, false, Option, none, some, List, [], ◌∷◌, ◌++◌,
  map, ◌==◌, if◌then◌else◌,
}
use rss_workshop.Model.Text.{Text, valid_rune, is_space}

-- html.Node: an element with its tag and children, a text, or another node (a document or a
-- comment), which has children only.
mutual
  pub data Html : Type 0 where
    element : (tag : String) → Nodes → Html
    text : Text → Html
    other : Nodes → Html

  pub data Nodes : Type 0 where
    nil : Nodes
    cons : Html → Nodes → Nodes

-- The functions of other libraries: html.Parse, where `none` is its error, and
-- unicode.SimpleFold.
pub record Libraries : Type 0 where
  pub parse : Text → Option Html
  pub simple_fold : ℕ → ℕ

-- strings.Fields: the words between runs of spaces; `word` is the word being read, reversed.
abbrev reverse_onto : Text → Text → Text
reverse_onto [] acc = acc
reverse_onto (c ∷ t) acc = reverse_onto t (c ∷ acc)

abbrev end_word : Text → List Text → List Text
end_word [] rest = rest
end_word (c ∷ w) rest = reverse_onto (c ∷ w) [] ∷ rest

unfoldable pub fields_from : Text → Text → List Text
unfolding is_space
fields_from word [] = end_word word []
fields_from word (c ∷ t) =
    let spaced = fields_from [] t in
    let joined = fields_from (c ∷ word) t in if is_space c then end_word word spaced else joined

-- strings.Join(words, " ")
unfoldable pub join_words : List Text → Text
join_words [] = []
join_words (w ∷ []) = w
join_words (w ∷ v ∷ ws) = w ++ (0x20 ∷ join_words (v ∷ ws))

abbrev pub skipped_tag : String → Bool
skipped_tag t =
    if str_eq t "head"
    then true
    else if str_eq t "script"
    then true
    else if str_eq t "style"
    then true
    else str_eq t "template"

abbrev one_of : String → List String → Bool
one_of t [] = false
one_of t (u ∷ us) = if str_eq t u then true else one_of t us

abbrev pub block_tag : String → Bool
block_tag t = one_of t (
    "address" ∷ "article" ∷ "aside" ∷ "blockquote" ∷ "br" ∷ "caption" ∷ "dd" ∷ "details" ∷ "dialog"
    ∷ "div" ∷ "dl" ∷ "dt" ∷ "fieldset" ∷ "figcaption" ∷ "figure" ∷ "footer" ∷ "form" ∷ "h1" ∷ "h2"
    ∷ "h3" ∷ "h4" ∷ "h5" ∷ "h6" ∷ "header" ∷ "hr" ∷ "li" ∷ "main" ∷ "nav" ∷ "ol" ∷ "p" ∷ "pre"
    ∷ "section" ∷ "summary" ∷ "table" ∷ "tbody" ∷ "td" ∷ "tfoot" ∷ "th" ∷ "thead" ∷ "tr" ∷ "ul"
    ∷ [])

-- `walk` of `description`: what it writes for a node, block elements between spaces.
unfoldable mutual
  pub walk : Html → Text
  walk (element tag ns) =
      let inner = walk_all ns in
      if skipped_tag tag then [] else if block_tag tag then 0x20 ∷ (inner ++ (0x20 ∷ [])) else inner
  walk (text t) = t
  walk (other ns) = walk_all ns

  pub walk_all : Nodes → Text
  walk_all nil = []
  walk_all (cons n ns) = walk n ++ walk_all ns

module _ (lib : Libraries) where
  -- The loop of `normalize` over the fold orbit of `r`, from `next`. The orbits of the Unicode
  -- table have at most four members; `none` means that eight steps did not close one.
  unfoldable pub fold_orbit : ℕ → (r next canonical : ℕ) → Option ℕ
  fold_orbit zero r next canonical = none
  fold_orbit (suc fuel) r next canonical =
      let rest = fold_orbit fuel r (lib.simple_fold next) (min canonical next) in
      if next == r then some canonical else rest

  unfoldable pub canonical_rune : ℕ → ℕ
  unfolding fold_orbit
  canonical_rune r = elim (fold_orbit 8 r (lib.simple_fold r) r) [ none ↦ r | some c ↦ c ]

  -- strings.Map writes U+FFFD for a byte that is no valid UTF-8.
  unfoldable pub normalize : Text → Text
  unfolding canonical_rune join_words fields_from valid_rune
  normalize t =
      map (λ r. canonical_rune (if valid_rune r then r else 0xfffd)) (join_words (fields_from [] t))

  unfoldable pub description : Text → Text
  unfolding walk
  description t = elim (lib.parse t) [ none ↦ [] | some doc ↦ walk doc ]
