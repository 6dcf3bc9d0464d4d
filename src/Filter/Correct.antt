-- ===== src/Filter/Correct.antt =====
-- Compiled filters decide what the stored rules say.
use rss_workshop.Common.{
  ℕ, suc, ◌+◌, ◌-◌, leb, ◌≡◌, refl, String, Bool, not, Option, none, some, List, [], ◌∷◌, arith,
}
use rss_workshop.Common.Result.{
  Result, ok, Returns, Returns-ok, Returns-err, Returns-bind, Returns-guard,
}
use rss_workshop.Model.Text.{Text, trim_space}
use rss_workshop.Model.Item.{Item}
use rss_workshop.Filter.Text.{Libraries, normalize}
use rss_workshop.Filter.Compile.{
  FilterRule, RuleList, leaf, node, nil, cons, FilterSet, Field, title, CompiledRule, CompiledRules,
  compiled, none_left, rule_then, Matcher, Budget, RulePath, rule, side, CompileError, OpKind,
  group, keyword, unknown, op_kind, field_of, keywords_of, enter, compile_keywords, keyword_valid,
  bad_keyword, bad_group, bad_keyword_rule, field_or_error, max_keywords, keyword_count,
  too_many_keywords, compile_flat, compile_tree, compile_rule, compile_rules, compile_side,
  compile_set, compile,
}
use rss_workshop.Filter.Match.{any_keyword, all_keywords, field_text, evaluate}
use rss_workshop.Filter.Match.Memo.{
  matches, matches_all, matches_any, matches_include, matches_exclude, evaluate-matches,
}
use rss_workshop.Filter.Meaning.{
  every, some_of, mentions, holds, all_hold, any_holds, accepts, accepts_optional, include_holds,
  exclude_holds,
}

module _ (lib : Libraries) (it : Item) where
  abbrev SameKeywords : Field → List Text → List Text → Type 0
  SameKeywords f ks cs =
      (all_keywords (field_text lib f it) cs ≡ every (mentions lib (some f) it) ks)
      × (any_keyword (field_text lib f it) cs ≡ some_of (mentions lib (some f) it) ks)

  keywords-every :
      (f : Field) (path : RulePath) (i : ℕ) (ks : List Text)
      → Returns (SameKeywords f ks) (compile_keywords lib path i ks)
  unfolding compile_keywords all_keywords any_keyword
  keywords-every f path i [] = Returns-ok [] (refl, refl)
  keywords-every f path i (k ∷ ks) =
      Returns-guard (keyword_valid (trim_space k)) (bad_keyword path (i + 1)) _ λ _.
        Returns-bind (compile_keywords lib path (suc i) ks) _ λ cs e.
          Returns-ok (normalize lib (trim_space k) ∷ cs) (
            let (p, q) = (keywords-every f path (suc i) ks).at cs e in (ground arith, ground arith))

  abbrev SameRule : FilterRule → CompiledRule × Budget → Type 0
  SameRule r out = matches lib out.0 it ≡ holds lib r it

  abbrev SameRules : RuleList → CompiledRules × Budget → Type 0
  SameRules rs out =
      (matches_all lib out.0 it ≡ all_hold lib rs it)
      × (matches_any lib out.0 it ≡ any_holds lib rs it)

  leaf-holds :
      (op field : String) (kws : Option (List Text)) (b : Budget) (path : RulePath) (k : OpKind)
      → op_kind op ≡ k
      → Returns (SameRule (leaf op field kws)) (compile_flat lib k op field kws b path)
  unfolding compile_flat holds matches op_kind
  leaf-holds op field kws b path group e = Returns-err _
  leaf-holds op field kws b path unknown e = Returns-err _
  leaf-holds op field kws b path keyword e =
      Returns-guard (not (leb (keyword_count kws) 0)) (bad_keyword_rule path) _ λ _.
        Returns-bind (field_or_error path (field_of field)) _ λ f found.
          Returns-guard (leb (keyword_count kws) (max_keywords - b.keywords)) too_many_keywords _
            λ _. Returns-bind (compile_keywords lib path 0 (keywords_of kws)) _ λ ks done.
              Returns-ok
                (compiled op f ks none_left, record b { keywords = b.keywords + keyword_count kws })
                (let (p, q) = (keywords-every f path 0 (keywords_of kws)).at ks done in
                  ground arith)

  tree-holds :
      (op field : String) (kws : Option (List Text)) (rules : RuleList) (wrong : Bool)
      (path : RulePath) (k : OpKind) (m : Result CompileError (CompiledRules × Budget))
      → op_kind op ≡ k
      → Returns (SameRules rules) m
      → Returns (SameRule (node op rules field kws)) (compile_tree lib k op wrong path m)
  unfolding compile_tree holds matches op_kind
  tree-holds op field kws rules wrong path group m e h =
      Returns-guard (not wrong) (bad_group path) _ λ _. Returns-bind m _ λ out done.
        Returns-ok (compiled op title [] out.0, out.1) (let (p, q) = h.at out done in ground arith)
  tree-holds op field kws rules wrong path keyword m e h = Returns-err _
  tree-holds op field kws rules wrong path unknown m e h = Returns-err _

  mutual
    unfolding compile_rule holds matches

    rule-holds :
        (r : FilterRule) (b : Budget) (depth : ℕ) (path : RulePath)
        → Returns (SameRule r) (compile_rule lib r b depth path)
    rule-holds (leaf op field kws) b depth path =
        Returns-bind (enter depth b) _ λ b' _. leaf-holds op field kws b' path (op_kind op) refl
    rule-holds (node op rules field kws) b depth path = Returns-bind (enter depth b) _ λ b' _.
        tree-holds op field kws rules _ path (op_kind op) _ refl
          (rules-hold rules b' (depth + 1) path 0)

    rules-hold :
        (rs : RuleList) (b : Budget) (depth : ℕ) (path : RulePath) (i : ℕ)
        → Returns (SameRules rs) (compile_rules lib rs b depth path i)
    rules-hold nil b depth path i = Returns-ok (none_left, b) (refl, refl)
    rules-hold (cons r rs) b depth path i =
        Returns-bind (compile_rule lib r b depth (rule path (i + 1))) _ λ out done.
          Returns-bind (compile_rules lib rs out.1 depth path (suc i)) _ λ outs dones.
            Returns-ok (rule_then out.0 outs.0, outs.1)
              (let p = (rule-holds r b depth (rule path (i + 1))).at out done in
                let (q, q') = (rules-hold rs out.1 depth path (suc i)).at outs dones in
                (ground arith, ground arith))

  side-holds :
      (name : String) (r : Option FilterRule) (b : Budget)
      → Returns
          (λ out.
            (matches_include lib out.0 it ≡ include_holds lib r it)
            × (matches_exclude lib out.0 it ≡ exclude_holds lib r it))
          (compile_side lib name r b)
  unfolding compile_side
  side-holds name none b = Returns-ok (none, b) (refl, refl)
  side-holds name (some r) b = Returns-bind (compile_rule lib r b 1 (side name)) _ λ out done.
      let p = (rule-holds r b 1 (side name)).at out done in Returns-ok (some out.0, out.1) (p, p)

  set-holds :
      (set : FilterSet)
      → Returns
          (λ m. (explain : Bool) → (evaluate lib m it explain).matched ≡ accepts lib set it)
          (compile_set lib set)
  unfolding compile_set
  set-holds set =
      Returns-bind (compile_side lib "include" set.include (record { nodes = 0; keywords = 0 })) _
        λ i done. Returns-bind (compile_side lib "exclude" set.exclude i.1) _ λ e done'.
          Returns-ok (record { include = i.0; exclude = e.0 })
            (λ explain.
              let (p, _) = (side-holds "include" set.include _).at i done in
              let (_, q) = (side-holds "exclude" set.exclude i.1).at e done' in
              rw (evaluate-matches lib i.0 e.0 it explain, p, q))

  -- A filter set that compiles decides each item as its stored rules say, with and without an
  -- explanation, whatever texts the evaluation remembers on the way.
  pub evaluate-compile :
      (set : Option FilterSet) (m : Matcher) (explain : Bool)
      → compile lib set ≡ ok m
      → (evaluate lib m it explain).matched ≡ accepts_optional lib set it
  unfolding compile
  evaluate-compile none m explain h = ground (arith, evaluate-matches lib none none it explain)
  evaluate-compile (some set) m explain h = (set-holds set).at m h explain
