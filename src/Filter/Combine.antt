-- ===== src/Filter/Combine.antt =====
-- internal/filter/combine.go: `Combine` merges a feed's own rules with its library filters.
pub mod Meaning
use rss_workshop.Common.{String, str_eq, Option, none, some, List, [], ◌∷◌, ◌++◌, if◌then◌else◌}
use rss_workshop.Model.Text.{Text}
use rss_workshop.Filter.Compile.{FilterRule, RuleList, leaf, node, nil, cons, FilterSet}

-- `append([]string(nil), keywords...)` of an empty slice is nil.
unfoldable pub copy_keywords : Option (List Text) → Option (List Text)
copy_keywords none = none
copy_keywords (some []) = none
copy_keywords (some (k ∷ ks)) = some (k ∷ ks)

-- The rule whose `Rules` were appended to a nil slice.
unfoldable pub rule_of : String → RuleList → String → Option (List Text) → FilterRule
rule_of op nil field kws = leaf op field kws
rule_of op (cons r rs) field kws = node op (cons r rs) field kws

unfoldable mutual
  unfolding copy_keywords rule_of

  pub copy_rule : FilterRule → FilterRule
  copy_rule (leaf op field kws) = leaf op field (copy_keywords kws)
  copy_rule (node op rules field kws) = rule_of op (copy_rules rules) field (copy_keywords kws)

  pub copy_rules : RuleList → RuleList
  copy_rules nil = nil
  copy_rules (cons r rs) = cons (copy_rule r) (copy_rules rs)

unfoldable pub append_rules : RuleList → RuleList → RuleList
append_rules nil qs = qs
append_rules (cons r rs) qs = cons r (append_rules rs qs)

abbrev pub op_of : FilterRule → String
op_of (leaf op _ _) = op
op_of (node op _ _ _) = op

abbrev pub children_of : FilterRule → RuleList
children_of (leaf _ _ _) = nil
children_of (node _ rules _ _) = rules

-- The loop of `join`: a part with the joining operator gives its children.
unfoldable pub join_rules : String → List FilterRule → RuleList
unfolding copy_rule append_rules
join_rules op [] = nil
join_rules op (p ∷ ps) =
    if str_eq (op_of p) op
    then append_rules (copy_rules (children_of p)) (join_rules op ps)
    else cons (copy_rule p) (join_rules op ps)

unfoldable pub join : String → List FilterRule → Option FilterRule
unfolding join_rules
join op [] = none
join op (p ∷ []) = some (copy_rule p)
join op (p ∷ q ∷ ps) = some (rule_of op (join_rules op (p ∷ q ∷ ps)) "" none)

unfoldable pub append_rule : List FilterRule → Option FilterRule → List FilterRule
append_rule rules none = rules
append_rule rules (some r) = rules ++ (r ∷ [])

-- The loop over `shared`, for one side.
unfoldable pub append_all :
    (FilterSet → Option FilterRule) → List FilterRule → List FilterSet → List FilterRule
unfolding append_rule
append_all side rules [] = rules
append_all side rules (f ∷ fs) = append_all side (append_rule rules (side f)) fs

abbrev pub own_rules : (FilterSet → Option FilterRule) → Option FilterSet → List FilterRule
own_rules side none = []
own_rules side (some f) = append_rule [] (side f)

abbrev pub set_or_nil : Option FilterRule → Option FilterRule → Option FilterSet
set_or_nil none none = none
set_or_nil i e = some (record { include = i; exclude = e })

unfoldable pub combine : Option FilterSet → List FilterSet → Option FilterSet
unfolding join append_all
combine own [] = own
combine own (f ∷ fs) =
    set_or_nil (join "all" (append_all (λ s. s.include) (own_rules (λ s. s.include) own) (f ∷ fs)))
      (join "any" (append_all (λ s. s.exclude) (own_rules (λ s. s.exclude) own) (f ∷ fs)))
