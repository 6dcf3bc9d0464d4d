-- ===== src/Filter/Combine/Meaning.antt =====
-- What the merged set accepts.
use rss_workshop.Common.{
  ◌≡◌, refl, String, str_eq, eq_iff, true, false, not, ◌&&◌, ◌||◌, Option, none, some, List, [],
  ◌∷◌, ◌∙◌, arith,
}
use rss_workshop.Model.Text.{Text}
use rss_workshop.Model.Item.{Item}
use rss_workshop.Filter.Text.{Libraries}
use rss_workshop.Filter.Compile.{FilterRule, RuleList, leaf, node, nil, cons, FilterSet}
use rss_workshop.Filter.Match.{match_kind}
use rss_workshop.Filter.Meaning.{
  every, some_of, holds, all_hold, any_holds, accepts, accepts_optional, include_holds,
  exclude_holds,
}
use rss_workshop.Filter.Combine.{
  copy_keywords, rule_of, copy_rule, copy_rules, append_rules, op_of, children_of, join_rules, join,
  append_rule, append_all, own_rules, set_or_nil, combine,
}

module _ (lib : Libraries) (it : Item) where
  rule_of-holds :
      (op : String) (rs : RuleList) (field : String) (kws : Option (List Text))
      → holds lib (rule_of op rs field kws) it ≡ holds lib (node op rs field kws) it
  unfolding rule_of holds
  rule_of-holds op nil field kws = refl
  rule_of-holds op (cons r rs) field kws = refl

  -- Copying keeps the meaning, though an empty slice of keywords becomes nil.
  mutual
    unfolding copy_rule holds copy_keywords

    copy_rule-holds : (r : FilterRule) → holds lib (copy_rule r) it ≡ holds lib r it
    copy_rule-holds (leaf op field none) = refl
    copy_rule-holds (leaf op field (some [])) = refl
    copy_rule-holds (leaf op field (some (k ∷ ks))) = refl
    copy_rule-holds (node op rules field none) = ground (
      arith,
      rule_of-holds op (copy_rules rules) field none,
      copy_rules-all rules,
      copy_rules-any rules,
    )
    copy_rule-holds (node op rules field (some [])) = ground (
      arith,
      rule_of-holds op (copy_rules rules) field none,
      copy_rules-all rules,
      copy_rules-any rules,
    )
    copy_rule-holds (node op rules field (some (k ∷ ks))) = ground (
      arith,
      rule_of-holds op (copy_rules rules) field (some (k ∷ ks)),
      copy_rules-all rules,
      copy_rules-any rules,
    )

    copy_rules-all : (rs : RuleList) → all_hold lib (copy_rules rs) it ≡ all_hold lib rs it
    copy_rules-all nil = refl
    copy_rules-all (cons r rs) = rw (copy_rule-holds r, copy_rules-all rs)

    copy_rules-any : (rs : RuleList) → any_holds lib (copy_rules rs) it ≡ any_holds lib rs it
    copy_rules-any nil = refl
    copy_rules-any (cons r rs) = rw (copy_rule-holds r, copy_rules-any rs)

  append_rules-all :
      (rs qs : RuleList)
      → all_hold lib (append_rules rs qs) it ≡ (all_hold lib rs it && all_hold lib qs it)
  unfolding append_rules holds
  append_rules-all nil qs = refl
  append_rules-all (cons r rs) qs = ground (arith, append_rules-all rs qs)

  append_rules-any :
      (rs qs : RuleList)
      → any_holds lib (append_rules rs qs) it ≡ (any_holds lib rs it || any_holds lib qs it)
  unfolding append_rules holds
  append_rules-any nil qs = refl
  append_rules-any (cons r rs) qs = ground (arith, append_rules-any rs qs)

  all_part :
      (p : FilterRule)
      → str_eq (op_of p) "all" ≡ true
      → all_hold lib (children_of p) it ≡ holds lib p it
  unfolding holds match_kind
  all_part (leaf op field kws) e = ground arith
  all_part (node op rules field kws) e = ground arith

  any_part :
      (p : FilterRule)
      → str_eq (op_of p) "any" ≡ true
      → any_holds lib (children_of p) it ≡ holds lib p it
  unfolding holds match_kind
  any_part (leaf op field kws) e =
      ground (arith, eq_iff op "any", eq_iff op "all", eq_iff "any" "all")
  any_part (node op rules field kws) e =
      ground (arith, eq_iff op "any", eq_iff op "all", eq_iff "any" "all")

  node_all : (rs : RuleList) → holds lib (node "all" rs "" none) it ≡ all_hold lib rs it
  unfolding holds match_kind
  node_all rs = refl

  node_any : (rs : RuleList) → holds lib (node "any" rs "" none) it ≡ any_holds lib rs it
  unfolding holds match_kind
  node_any rs = refl

  join_rules-all :
      (ps : List FilterRule)
      → all_hold lib (join_rules "all" ps) it ≡ every (λ p. holds lib p it) ps
  unfolding join_rules holds
  join_rules-all [] = refl
  join_rules-all (p ∷ ps) = ground (
    arith,
    all_part p,
    copy_rules-all (children_of p),
    copy_rule-holds p,
    append_rules-all (copy_rules (children_of p)) (join_rules "all" ps),
    join_rules-all ps,
  )

  join_rules-any :
      (ps : List FilterRule)
      → any_holds lib (join_rules "any" ps) it ≡ some_of (λ p. holds lib p it) ps
  unfolding join_rules holds
  join_rules-any [] = refl
  join_rules-any (p ∷ ps) = ground (
    arith,
    any_part p,
    copy_rules-any (children_of p),
    copy_rule-holds p,
    append_rules-any (copy_rules (children_of p)) (join_rules "any" ps),
    join_rules-any ps,
  )

  join-all :
      (ps : List FilterRule) → include_holds lib (join "all" ps) it ≡ every (λ p. holds lib p it) ps
  unfolding join
  join-all [] = refl
  join-all (p ∷ []) = ground (arith, copy_rule-holds p)
  join-all (p ∷ q ∷ ps) =
      rule_of-holds "all" (join_rules "all" (p ∷ q ∷ ps)) "" none
      ∙ node_all (join_rules "all" (p ∷ q ∷ ps))
      ∙ join_rules-all (p ∷ q ∷ ps)

  join-any :
      (ps : List FilterRule)
      → exclude_holds lib (join "any" ps) it ≡ some_of (λ p. holds lib p it) ps
  unfolding join
  join-any [] = refl
  join-any (p ∷ []) = ground (arith, copy_rule-holds p)
  join-any (p ∷ q ∷ ps) =
      rule_of-holds "any" (join_rules "any" (p ∷ q ∷ ps)) "" none
      ∙ node_any (join_rules "any" (p ∷ q ∷ ps))
      ∙ join_rules-any (p ∷ q ∷ ps)

  append_rule-every :
      (ps : List FilterRule) (r : Option FilterRule)
      → every (λ p. holds lib p it) (append_rule ps r)
        ≡ (every (λ p. holds lib p it) ps && include_holds lib r it)
  unfolding append_rule
  append_rule-every [] none = refl
  append_rule-every [] (some r) = ground arith
  append_rule-every (p ∷ ps) none = ground arith
  append_rule-every (p ∷ ps) (some r) = ground (arith, append_rule-every ps (some r))

  append_rule-some_of :
      (ps : List FilterRule) (r : Option FilterRule)
      → some_of (λ p. holds lib p it) (append_rule ps r)
        ≡ (some_of (λ p. holds lib p it) ps || exclude_holds lib r it)
  unfolding append_rule
  append_rule-some_of [] none = refl
  append_rule-some_of [] (some r) = ground arith
  append_rule-some_of (p ∷ ps) none = ground arith
  append_rule-some_of (p ∷ ps) (some r) = ground (arith, append_rule-some_of ps (some r))

  append_all-every :
      (ps : List FilterRule) (fs : List FilterSet)
      → every (λ p. holds lib p it) (append_all (λ s. s.include) ps fs)
        ≡ (every (λ p. holds lib p it) ps && every (λ s. include_holds lib s.include it) fs)
  unfolding append_all
  append_all-every ps [] = ground arith
  append_all-every ps (f ∷ fs) =
      ground (arith, append_all-every (append_rule ps f.include) fs, append_rule-every ps f.include)

  append_all-some_of :
      (ps : List FilterRule) (fs : List FilterSet)
      → some_of (λ p. holds lib p it) (append_all (λ s. s.exclude) ps fs)
        ≡ (some_of (λ p. holds lib p it) ps || some_of (λ s. exclude_holds lib s.exclude it) fs)
  unfolding append_all
  append_all-some_of ps [] = ground arith
  append_all-some_of ps (f ∷ fs) =
      ground
        (arith, append_all-some_of (append_rule ps f.exclude) fs, append_rule-some_of ps f.exclude)

  own_rules-every :
      (own : Option FilterSet)
      → every (λ p. holds lib p it) (own_rules (λ s. s.include) own)
        ≡ elim own [ none ↦ true | some s ↦ include_holds lib s.include it ]
  own_rules-every none = refl
  own_rules-every (some s) = append_rule-every [] s.include

  own_rules-some_of :
      (own : Option FilterSet)
      → some_of (λ p. holds lib p it) (own_rules (λ s. s.exclude) own)
        ≡ elim own [ none ↦ false | some s ↦ exclude_holds lib s.exclude it ]
  own_rules-some_of none = refl
  own_rules-some_of (some s) = append_rule-some_of [] s.exclude

  set_or_nil-accepts :
      (i e : Option FilterRule)
      → accepts_optional lib (set_or_nil i e) it
        ≡ (include_holds lib i it && not (exclude_holds lib e it))
  set_or_nil-accepts none none = refl
  set_or_nil-accepts (some i) none = refl
  set_or_nil-accepts none (some e) = refl
  set_or_nil-accepts (some i) (some e) = refl

  every-accepts :
      (fs : List FilterSet)
      → every (λ s. accepts lib s it) fs ≡ (
          every (λ s. include_holds lib s.include it) fs
          && not (some_of (λ s. exclude_holds lib s.exclude it) fs))
  every-accepts [] = refl
  every-accepts (f ∷ fs) = ground (arith, every-accepts fs)

  -- The merged set accepts an item exactly when the feed's own rules and each of its library
  -- filters accept it, whatever the rules are.
  pub combine-accepts :
      (own : Option FilterSet) (shared : List FilterSet)
      → accepts_optional lib (combine own shared) it
        ≡ (accepts_optional lib own it && every (λ s. accepts lib s it) shared)
  unfolding combine
  combine-accepts own [] = ground arith
  combine-accepts own (f ∷ fs) =
      let is = append_all (λ s. s.include) (own_rules (λ s. s.include) own) (f ∷ fs) in
      let es = append_all (λ s. s.exclude) (own_rules (λ s. s.exclude) own) (f ∷ fs) in
      ground (
        arith,
        set_or_nil-accepts (join "all" is) (join "any" es),
        join-all is,
        join-any es,
        append_all-every (own_rules (λ s. s.include) own) (f ∷ fs),
        append_all-some_of (own_rules (λ s. s.exclude) own) (f ∷ fs),
        own_rules-every own,
        own_rules-some_of own,
        every-accepts (f ∷ fs),
      )
