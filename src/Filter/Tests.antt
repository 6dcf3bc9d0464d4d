-- ===== src/Filter/Tests.antt =====
-- Runs of the filters on one item: an include rule with a child per field and an exclude rule.
use rss_workshop.Common.{ℕ, ◌≡◌, refl, ◌↔◌, true, ◌&&◌, ◌==◌, if◌then◌else◌, none, some, [], ◌∷◌}
use rss_workshop.Common.Result.{Result, ok, err}
use rss_workshop.Model.Text.{Text, trim_space, valid_string}
use rss_workshop.Model.Item.{Item}
use rss_workshop.Model.Filters.{FilterRule, leaf, node, nil, cons, FilterSet}
use rss_workshop.Filter.Text.{Libraries}
use rss_workshop.Filter.Compile.{CompileError, Matcher, compile, keyword_valid}
use rss_workshop.Filter.Match.{evaluate}
use rss_workshop.Filter.Meaning.{accepts, accepts_optional, every}
use rss_workshop.Filter.Combine.{combine}
use rss_workshop.Filter.Correct.{evaluate-compile}
use rss_workshop.Filter.Combine.Meaning.{combine-accepts}
use rss_workshop.Filter.Limits.{WithinLimits}
use rss_workshop.Filter.Limits.Complete.{compile_iff}

-- A folding that maps 'A' and 'a' to each other, and an HTML parser that always fails.
abbrev fold : ℕ → ℕ
fold c = if c == 65 then 97 else if c == 97 then 65 else c

abbrev libraries : Libraries
libraries = record { parse = λ t. none; simple_fold = fold }

abbrev story : Item
story = record {
  key = "1";
  guid = "1";
  title = b'a' ∷ b' ' ∷ b'x' ∷ [];
  url = b'x' ∷ [];
  html = [];
  image = [];
  full_html = [];
  published = 0;
  first_seen = 0;
  last_seen = 0;
  last_changed = 0;
}

abbrev has : Text → FilterRule
has k = leaf "contains_any" "title" (some (k ∷ []))

abbrev wanted : FilterSet
wanted = record {
  include = some (node "all" (cons (has (b'A' ∷ [])) (cons (has (b'x' ∷ [])) nil)) "" none);
  exclude = some (has (b'q' ∷ []));
}

abbrev unwanted : FilterSet
unwanted = record { include = none; exclude = some (has (b'x' ∷ [])) }

abbrev or_empty : Result CompileError Matcher → Matcher
or_empty (ok m) = m
or_empty (err e) = record { include = none; exclude = none }

unfoldable compiled_set : Matcher
unfolding compile
compiled_set = or_empty (compile libraries (some wanted))

compile-wanted : compile libraries (some wanted) ≡ ok compiled_set
unfolding compile compiled_set keyword_valid trim_space valid_string
compile-wanted = refl

evaluate-compile_example :
    (evaluate libraries compiled_set story true).matched
    ≡ accepts_optional libraries (some wanted) story
evaluate-compile_example =
    evaluate-compile libraries story (some wanted) compiled_set true compile-wanted

combine-accepts_example :
    accepts_optional libraries (combine (some wanted) (unwanted ∷ [])) story ≡ (
      accepts_optional libraries (some wanted) story
      && every (λ s. accepts libraries s story) (unwanted ∷ []))
combine-accepts_example = combine-accepts libraries story (some wanted) (unwanted ∷ [])

compile_iff_example :
    ((m : Matcher) × (compile libraries (some wanted) ≡ ok m)) ↔ WithinLimits wanted
compile_iff_example = compile_iff libraries wanted
