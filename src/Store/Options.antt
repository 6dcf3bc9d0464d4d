-- ===== src/Store/Options.antt =====
-- internal/store/save.go and library.go: the errors of a save, and its options.
use rss_workshop.Common.{String, Bool, true, false, Option, none, some}
use rss_workshop.Model.Feed.{Feed}
use rss_workshop.Model.Filters.{FilterSet}
use rss_workshop.Filter.Compile.{CompileError}

-- The errors of the saves. `invalid_rules` is an InvalidError of Compile, `no_row` is
-- sql.ErrNoRows, and `conflict` a row whose id or token is taken.
pub data SaveError : Type 0 where
  bad_rules invalid_rules : CompileError → SaveError
  rejected : String → SaveError
  in_feed : String → SaveError → SaveError
  too_many_links duplicate_link unknown_filter links_changed : SaveError
  no_rules library_full filter_in_use : SaveError
  no_row unreadable conflict history_too_long : SaveError

-- `SaveOptions`; `validate` returns the text of an error.
pub record SaveOptions : Type 0 where
  pub apply_filters_to_history : Bool
  pub validate : Option (Feed → Option String)
  pub keep_enabled : Bool

abbrev pub has_rules : Option FilterSet → Bool
has_rules none = false
has_rules (some set) = elim set.include [
  | some r ↦ true
  | none ↦ elim set.exclude [ some r ↦ true | none ↦ false ]
]
