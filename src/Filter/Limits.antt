-- ===== src/Filter/Limits.antt =====
-- The size and the form of a rule tree: what internal/filter/filter.go asks of a filter set.
pub mod Sound
pub mod Complete
use rss_workshop.Common.{
  ℕ, zero, suc, ◌+◌, ◌-◌, ◌≤◌, max, ◌≡◌, refl, ◌↔◌, String, str_eq, Bool, true, false, not, ◌&&◌,
  ◌||◌, Option, none, some, List, [], ◌∷◌, arith, leb, if◌then◌else◌, length,
}
use rss_workshop.Common.Result.{
  Result, ok, err, ◌>>=◌, ◌>>◌, guard, Returns, Returns-ok, Returns-err, Returns-bind,
  Returns-guard,
}
use rss_workshop.Model.Text.{Text, trim_space}
use rss_workshop.Filter.Text.{Libraries, normalize}
use rss_workshop.Filter.Compile.{
  FilterRule, RuleList, leaf, node, nil, cons, FilterSet, Field, title, CompiledRule, CompiledRules,
  compiled, none_left, rule_then, Matcher, Budget, RulePath, rule, side, CompileError, too_deep,
  too_many_nodes, too_many_keywords, bad_group, bad_keyword_rule, bad_field, bad_keyword, OpKind,
  group, keyword, unknown, op_kind, field_of, keyword_valid, keyword_count, keywords_of, is_nil,
  no_rules, field_or_error, enter, max_nodes, max_keywords, max_depth, compile_keywords,
  compile_leaf, compile_flat, compile_tree, compile_rule, compile_rules, compile_side, compile_set,
  compile,
}
use rss_workshop.Filter.Meaning.{every}

unfoldable mutual
  -- The rules of a tree.
  pub nodes : FilterRule → ℕ
  nodes (leaf _ _ _) = 1
  nodes (node _ rules _ _) = suc (nodes_all rules)

  pub nodes_all : RuleList → ℕ
  nodes_all nil = 0
  nodes_all (cons r rs) = nodes r + nodes_all rs

unfoldable mutual
  pub keywords : FilterRule → ℕ
  keywords (leaf _ _ kws) = keyword_count kws
  keywords (node _ rules _ _) = keywords_all rules

  pub keywords_all : RuleList → ℕ
  keywords_all nil = 0
  keywords_all (cons r rs) = keywords r + keywords_all rs

unfoldable mutual
  -- The levels of a tree.
  pub height : FilterRule → ℕ
  height (leaf _ _ _) = 1
  height (node _ rules _ _) = suc (height_all rules)

  pub height_all : RuleList → ℕ
  height_all nil = 0
  height_all (cons r rs) = max (height r) (height_all rs)

abbrev pub is_some : Option Field → Bool
is_some none = false
is_some (some _) = true

abbrev pub trimmed_valid : Text → Bool
trimmed_valid k = keyword_valid (trim_space k)

unfoldable mutual
  unfolding op_kind field_of keyword_valid

  -- A group has rules and nothing else; a keyword rule has a field, keywords and no slice of rules.
  pub well_formed : FilterRule → Bool
  well_formed (leaf op field kws) = elim (op_kind op) [
    | keyword ↦
        not (leb (keyword_count kws) 0)
        && is_some (field_of field)
        && every trimmed_valid (keywords_of kws)
    | _ ↦ false
  ]
  well_formed (node op rules field kws) = elim (op_kind op) [
    | group ↦
        not (no_rules rules || not (str_eq field "") || not (is_nil kws)) && well_formed_all rules
    | _ ↦ false
  ]

  pub well_formed_all : RuleList → Bool
  well_formed_all nil = true
  well_formed_all (cons r rs) = well_formed r && well_formed_all rs

abbrev pub side_size : (FilterRule → ℕ) → Option FilterRule → ℕ
side_size f none = 0
side_size f (some r) = f r

abbrev pub side_formed : Option FilterRule → Bool
side_formed none = true
side_formed (some r) = well_formed r

-- The rules of both sides have the form that the operators ask for, and their nodes, keywords and
-- levels are within the limits.
pub record WithinLimits (set : FilterSet) : Type 0 where
  pub include_formed : side_formed set.include ≡ true
  pub exclude_formed : side_formed set.exclude ≡ true
  pub few_nodes : side_size nodes set.include + side_size nodes set.exclude ≤ max_nodes
  pub few_keywords : side_size keywords set.include + side_size keywords set.exclude ≤ max_keywords
  pub include_flat : side_size height set.include ≤ max_depth
  pub exclude_flat : side_size height set.exclude ≤ max_depth
