-- ===== src/Filter/Limits/Complete.antt =====
-- A well-formed filter set within the limits compiles.
use rss_workshop.Common.{
  ℕ, suc, ◌+◌, ◌-◌, ◌≤◌, ◌≡◌, refl, ◌↔◌, String, str_eq, true, false, not, ◌||◌, Option, none, some,
  List, [], ◌∷◌, arith, leb,
}
use rss_workshop.Common.Result.{Result, ok}
use rss_workshop.Model.Text.{Text, trim_space}
use rss_workshop.Filter.Text.{Libraries, normalize}
use rss_workshop.Filter.Compile.{
  FilterRule, RuleList, leaf, node, nil, cons, FilterSet, Field, title, CompiledRule, CompiledRules,
  compiled, none_left, rule_then, Matcher, Budget, RulePath, rule, side, CompileError, OpKind,
  group, keyword, unknown, op_kind, field_of, keyword_count, keywords_of, is_nil, no_rules,
  field_or_error, enter, max_nodes, max_keywords, max_depth, compile_keywords, compile_leaf,
  compile_flat, compile_tree, compile_rule, compile_rules, compile_side, compile_set, compile,
}
use rss_workshop.Filter.Meaning.{every}
use rss_workshop.Filter.Limits.{
  nodes, nodes_all, keywords, keywords_all, height, height_all, is_some, trimmed_valid, well_formed,
  well_formed_all, side_size, side_formed, WithinLimits,
}
use rss_workshop.Filter.Limits.Sound.{rule-Spent, side-Spent, set-limits}

module _ (lib : Libraries) where
  keywords-compile :
      (path : RulePath) (i : ℕ) (ks : List Text)
      → every trimmed_valid ks ≡ true
      → (cs : List Text) × (compile_keywords lib path i ks ≡ ok cs)
  unfolding compile_keywords
  keywords-compile path i [] h = ([], refl)
  keywords-compile path i (k ∷ ks) h =
      let (cs, e) = keywords-compile path (suc i) ks (ground arith) in
      (normalize lib (trim_space k) ∷ cs, ground arith)

  enter-fits :
      (depth : ℕ) (b : Budget)
      → depth ≤ max_depth
      → b.nodes + 1 ≤ max_nodes
      → enter depth b ≡ ok (record b { nodes = b.nodes + 1 })
  unfolding enter
  enter-fits depth b d n = ground arith

  field_found :
      (path : RulePath) (f : Option Field)
      → is_some f ≡ true
      → (g : Field) × (field_or_error path f ≡ ok g)
  field_found path none h = cc
  field_found path (some g) h = (g, refl)

  leaf-runs :
      (op field : String) (kws : Option (List Text)) (b : Budget) (path : RulePath) (f : Field)
      (ks : List Text)
      → leb (keyword_count kws) 0 ≡ false
      → field_or_error path (field_of field) ≡ ok f
      → leb (keyword_count kws) (max_keywords - b.keywords) ≡ true
      → compile_keywords lib path 0 (keywords_of kws) ≡ ok ks
      → compile_leaf lib op field kws b path
        ≡ ok (compiled op f ks none_left, record b { keywords = b.keywords + keyword_count kws })
  unfolding compile_leaf
  leaf-runs op field kws b path f ks p q r t = rw (p, q, r, t)

  room : (b n : ℕ) → b + n ≤ max_keywords → leb n (max_keywords - b) ≡ true
  room b n h = ground arith

  leaf-compiles :
      (op field : String) (kws : Option (List Text)) (b : Budget) (path : RulePath) (k : OpKind)
      → op_kind op ≡ k
      → well_formed (leaf op field kws) ≡ true
      → b.keywords + keyword_count kws ≤ max_keywords
      → (out : CompiledRule × Budget) × (compile_flat lib k op field kws b path ≡ ok out)
  unfolding compile_flat well_formed
  leaf-compiles op field kws b path group e w n = absurd (ground arith)
  leaf-compiles op field kws b path unknown e w n = absurd (ground arith)
  leaf-compiles op field kws b path keyword e w n =
      let (f, found) = field_found path (field_of field) (ground arith) in
      let (ks, done) = keywords-compile path 0 (keywords_of kws) (ground arith) in
      (
        (compiled op f ks none_left, record b { keywords = b.keywords + keyword_count kws }),
        leaf-runs op field kws b path f ks (ground arith) found
            (room b.keywords (keyword_count kws) n) done,
      )

  tree-compiles :
      (op field : String) (kws : Option (List Text)) (rules : RuleList) (path : RulePath)
      (k : OpKind) (m : Result CompileError (CompiledRules × Budget))
      → op_kind op ≡ k
      → well_formed (node op rules field kws) ≡ true
      → (well_formed_all rules ≡ true → (out : CompiledRules × Budget) × (m ≡ ok out))
      → (out : CompiledRule × Budget) × (compile_tree lib k op
            (no_rules rules || not (str_eq field "") || not (is_nil kws))
            path
            m
          ≡ ok out)
  unfolding compile_tree well_formed
  tree-compiles op field kws rules path group m e w h =
      let (out, done) = h (ground arith) in ((compiled op title [] out.0, out.1), ground arith)
  tree-compiles op field kws rules path keyword m e w h = absurd (ground arith)
  tree-compiles op field kws rules path unknown m e w h = absurd (ground arith)

  mutual
    unfolding compile_rule nodes keywords height well_formed

    rule-compiles :
        (r : FilterRule) (b : Budget) (depth : ℕ) (path : RulePath)
        → well_formed r ≡ true
        → depth + height r ≤ suc max_depth
        → b.nodes + nodes r ≤ max_nodes
        → b.keywords + keywords r ≤ max_keywords
        → (out : CompiledRule × Budget) × (compile_rule lib r b depth path ≡ ok out)
    rule-compiles (leaf op field kws) b depth path w h n k =
        rw (enter-fits depth b (omega arith) (omega arith))
          (leaf-compiles op field kws (record b { nodes = b.nodes + 1 }) path (op_kind op) refl w k)
    rule-compiles (node op rules field kws) b depth path w h n k =
        rw (enter-fits depth b (omega arith) (omega arith)) (
          tree-compiles op field kws rules path (op_kind op) _ refl w (λ w'.
            rules-compile rules (record b { nodes = b.nodes + 1 }) (depth + 1) path 0 w'
              (omega arith) (omega arith) (omega arith) k))

    rules-compile :
        (rs : RuleList) (b : Budget) (depth : ℕ) (path : RulePath) (i : ℕ)
        → well_formed_all rs ≡ true
        → depth ≤ suc max_depth
        → depth + height_all rs ≤ suc max_depth
        → b.nodes + nodes_all rs ≤ max_nodes
        → b.keywords + keywords_all rs ≤ max_keywords
        → (out : CompiledRules × Budget) × (compile_rules lib rs b depth path i ≡ ok out)
    rules-compile nil b depth path i w d h n k = ((none_left, b), refl)
    rules-compile (cons r rs) b depth path i w d h n k =
        let (out, done) =
          rule-compiles r b depth (rule path (i + 1)) (ground arith) (omega arith) (omega arith)
            (omega arith) in
        let s = (rule-Spent lib r b depth (rule path (i + 1))).at out done in
        let (outs, dones) =
          rules-compile rs out.1 depth path (suc i) (ground arith) d (omega arith)
            (omega (arith, s)) (omega (arith, s)) in
        ((rule_then out.0 outs.0, outs.1), rw (done, dones))

  side-compiles :
      (name : String) (r : Option FilterRule) (b : Budget)
      → side_formed r ≡ true
      → side_size height r ≤ max_depth
      → b.nodes + side_size nodes r ≤ max_nodes
      → b.keywords + side_size keywords r ≤ max_keywords
      → (out : Option CompiledRule × Budget) × (compile_side lib name r b ≡ ok out)
  unfolding compile_side
  side-compiles name none b w h n k = ((none, b), refl)
  side-compiles name (some r) b w h n k =
      let (out, done) = rule-compiles r b 1 (side name) w (omega arith) n k in
      ((some out.0, out.1), rw done)

  set-compiles : (set : FilterSet) → WithinLimits set → (m : Matcher) × (compile_set lib set ≡ ok m)
  unfolding compile_set
  set-compiles set w =
      let (i, done) =
        side-compiles "include" set.include (record { nodes = 0; keywords = 0 }) w.include_formed
          w.include_flat (omega arith) (omega arith) in
      let s = (side-Spent lib "include" set.include _).at i done in
      let (e, done') =
        side-compiles "exclude" set.exclude i.1 w.exclude_formed w.exclude_flat (omega (arith, s))
          (omega (arith, s)) in
      (record { include = i.0; exclude = e.0 }, rw (done, done'))

  -- A filter set compiles exactly when its rules are well formed and both sides together stay
  -- within 128 nodes and 500 keywords, and each within 8 levels.
  pub compile_iff :
      (set : FilterSet) → ((m : Matcher) × (compile lib (some set) ≡ ok m)) ↔ WithinLimits set
  unfolding compile
  compile_iff set = (λ h. (set-limits lib set).at h.0 h.1, set-compiles set)
