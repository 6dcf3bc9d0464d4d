-- ===== src/Filter/Meaning.antt =====
-- What a filter set says of an item, read off the rules as they are stored: the specification of
-- internal/filter, with no validation, compilation or caching in it.
use rss_workshop.Common.{Bool, true, false, not, ◌&&◌, ◌||◌, Option, none, some, List, [], ◌∷◌}
use rss_workshop.Model.Text.{Text, trim_space, contains_text}
use rss_workshop.Model.Item.{Item}
use rss_workshop.Filter.Text.{Libraries, normalize}
use rss_workshop.Filter.Compile.{
  FilterRule, RuleList, leaf, node, nil, cons, FilterSet, Field, field_of, keywords_of,
}
use rss_workshop.Filter.Match.{
  match_all, match_any, match_contains_all, match_contains_any, match_kind, field_text,
}

abbrev pub every {ℓ} : {A : Type ℓ} → (A → Bool) → List A → Bool
every p [] = true
every p (x ∷ xs) = p x && every p xs

abbrev pub some_of {ℓ} : {A : Type ℓ} → (A → Bool) → List A → Bool
some_of p [] = false
some_of p (x ∷ xs) = p x || some_of p xs

module _ (lib : Libraries) where
  -- Whether the text of the field has the keyword, both normalized.
  abbrev pub mentions : Option Field → Item → Text → Bool
  mentions none it k = false
  mentions (some f) it k = contains_text (field_text lib f it) (normalize lib (trim_space k))

  unfoldable mutual
    unfolding match_kind field_of

    pub holds : FilterRule → Item → Bool
    holds (leaf op field kws) it = elim (match_kind op) [
      | match_all ↦ true
      | match_any ↦ false
      | match_contains_all ↦ every (mentions (field_of field) it) (keywords_of kws)
      | match_contains_any ↦ some_of (mentions (field_of field) it) (keywords_of kws)
    ]
    holds (node op rules field kws) it = elim (match_kind op) [
      | match_all ↦ all_hold rules it
      | match_any ↦ any_holds rules it
      | match_contains_all ↦ every (mentions (field_of field) it) (keywords_of kws)
      | match_contains_any ↦ some_of (mentions (field_of field) it) (keywords_of kws)
    ]

    pub all_hold : RuleList → Item → Bool
    all_hold nil it = true
    all_hold (cons r rs) it = holds r it && all_hold rs it

    pub any_holds : RuleList → Item → Bool
    any_holds nil it = false
    any_holds (cons r rs) it = holds r it || any_holds rs it

  abbrev pub include_holds : Option FilterRule → Item → Bool
  include_holds none it = true
  include_holds (some r) it = holds r it

  abbrev pub exclude_holds : Option FilterRule → Item → Bool
  exclude_holds none it = false
  exclude_holds (some r) it = holds r it

  -- A set keeps an item that its include rules match and its exclude rules do not.
  abbrev pub accepts : FilterSet → Item → Bool
  accepts set it = include_holds set.include it && not (exclude_holds set.exclude it)

  abbrev pub accepts_optional : Option FilterSet → Item → Bool
  accepts_optional none it = true
  accepts_optional (some set) it = accepts set it
