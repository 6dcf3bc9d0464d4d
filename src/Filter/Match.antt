-- ===== src/Filter/Match.antt =====
-- internal/filter/filter.go: `evaluate`, `match` and `reason`, and the `subject` of text.go, which
-- computes the text of a field at most once for each item.
pub mod Memo
use rss_workshop.Common.{
  String, str_eq, Bool, true, false, Option, none, some, List, [], ◌∷◌, if◌then◌else◌,
}
use rss_workshop.Model.Text.{Text, contains_text}
use rss_workshop.Model.Item.{Item}
use rss_workshop.Filter.Text
use rss_workshop.Filter.Text.{Libraries, normalize}
use rss_workshop.Filter.Compile.{
  Field, title, description, link, CompiledRule, CompiledRules, compiled, none_left, rule_then,
  Matcher,
}

-- `none` for a value that is not ready.
pub record Subject : Type 0 where
  pub item : Item
  pub title_value : Option Text
  pub description_value : Option Text
  pub link_value : Option Text

-- `subject{item: item}`
abbrev pub new_subject : Item → Subject
new_subject it = record {
  item = it;
  title_value = none;
  description_value = none;
  link_value = none;
}

abbrev pub slot : Field → Subject → Option Text
slot title s = s.title_value
slot description s = s.description_value
slot link s = s.link_value

abbrev pub fill : Field → Text → Subject → Subject
fill title v s = record s { title_value = some v }
fill description v s = record s { description_value = some v }
fill link v s = record s { link_value = some v }

-- The two loops over the keywords.
unfoldable pub any_keyword : Text → List Text → Bool
any_keyword value [] = false
any_keyword value (k ∷ ks) = if contains_text value k then true else any_keyword value ks

unfoldable pub all_keywords : Text → List Text → Bool
all_keywords value [] = true
all_keywords value (k ∷ ks) = if contains_text value k then all_keywords value ks else false

-- The cases of `switch r.op` in `match`.
pub data MatchKind : Type 0 where
  match_all match_any match_contains_all match_contains_any : MatchKind

unfoldable pub match_kind : String → MatchKind
match_kind op =
    if str_eq op "all"
    then match_all
    else if str_eq op "any"
    then match_any
    else if str_eq op "contains_all"
    then match_contains_all
    else match_contains_any

-- `reason` is the sentence, in its parts; it is empty for "".
pub record Decision : Type 0 where
  pub matched : Bool
  pub reason : List String

module _ (lib : Libraries) where
  -- The raw text of a field, normalized.
  unfoldable pub field_text : Field → Item → Text
  field_text title it = normalize lib it.title
  field_text description it = normalize lib (Text.description lib it.html)
  field_text link it = normalize lib it.url

  -- `subject.value`
  unfoldable pub value : Field → Subject → Text × Subject
  unfolding field_text
  value f s = elim (slot f s) [
    | some v ↦ (v, s)
    | none ↦ let v = field_text f s.item in (v, fill f v s)
  ]

  unfoldable mutual
    unfolding value any_keyword all_keywords match_kind

    pub match_rule : CompiledRule → Subject → Bool × Subject
    match_rule (compiled op f ks rules) s = elim (match_kind op) [
      | match_all ↦ match_all_rules rules s
      | match_any ↦ match_any_rules rules s
      | match_contains_all ↦ let (v, s') = value f s in (all_keywords v ks, s')
      | match_contains_any ↦ let (v, s') = value f s in (any_keyword v ks, s')
    ]

    -- The loop of "all", which stops at the first child that does not match.
    pub match_all_rules : CompiledRules → Subject → Bool × Subject
    match_all_rules none_left s = (true, s)
    match_all_rules (rule_then r rs) s =
        let (b, s') = match_rule r s in
        let rest = match_all_rules rs s' in if b then rest else (false, s')

    -- The loop of "any", which stops at the first child that matches.
    pub match_any_rules : CompiledRules → Subject → Bool × Subject
    match_any_rules none_left s = (false, s)
    match_any_rules (rule_then r rs) s =
        let (b, s') = match_rule r s in
        let rest = match_any_rules rs s' in if b then (true, s') else rest

  -- A side of the matcher, of which nil matches nothing.
  abbrev match_side : Option CompiledRule → Subject → Option Bool × Subject
  match_side none s = (none, s)
  match_side (some r) s = let (b, s') = match_rule r s in (some b, s')

  abbrev field_name : Field → String
  field_name title = "Title"
  field_name description = "Description"
  field_name link = "Link"

  -- `reason`: its texts, in the cases of the rule's operator and of `excluded`.
  unfoldable pub reason : CompiledRule → Bool → List String
  unfolding match_kind
  reason (compiled op f ks rules) excluded = elim (match_kind op) [
    | match_all ↦ group_reason excluded
    | match_any ↦ group_reason excluded
    | match_contains_all ↦ keyword_reason (field_name f) "all" "all" excluded
    | match_contains_any ↦ keyword_reason (field_name f) "any" "at least one of" excluded
  ]
    where
      group_reason : Bool → List String
      group_reason true = "Matched the exclude rules." ∷ []
      group_reason false = "Did not match the include rules." ∷ []

      keyword_reason : String → String → String → Bool → List String
      keyword_reason name q ex true = name ∷ "matched" ∷ ex ∷ "the exclude keywords." ∷ []
      keyword_reason name q ex false = name ∷ "did not match" ∷ q ∷ "of the include keywords." ∷ []

  abbrev explain_side : Bool → Option CompiledRule → Bool → List String
  explain_side false r excluded = []
  explain_side true none excluded = []
  explain_side true (some r) excluded = reason r excluded

  -- `evaluate`; `explain` is true for `Evaluate` and false for `Match`.
  unfoldable pub evaluate : Matcher → Item → Bool → Decision
  unfolding match_rule reason
  evaluate m it explain =
      let (i, s) = match_side m.include (new_subject it) in
      let rejected : Decision = record {
        matched = false;
        reason = explain_side explain m.include false;
      } in
      let excluded = (match_side m.exclude s).0 in
      let late : Decision = record {
        matched = false;
        reason = explain_side explain m.exclude true;
      } in
      let kept : Decision = record { matched = true; reason = [] } in
      elim i [ some false ↦ rejected | _ ↦ elim excluded [ some true ↦ late | _ ↦ kept ] ]
