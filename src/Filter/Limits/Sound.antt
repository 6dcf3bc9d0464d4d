-- ===== src/Filter/Limits/Sound.antt =====
-- A filter set that compiles is well formed and within the limits.
use rss_workshop.Common.{
  ℕ, suc, ◌+◌, ◌-◌, ◌≤◌, ◌≡◌, refl, String, str_eq, Bool, true, not, ◌||◌, Option, none, some, List,
  [], ◌∷◌, arith, leb,
}
use rss_workshop.Common.Result.{
  Result, Returns, Returns-ok, Returns-err, Returns-bind, Returns-guard,
}
use rss_workshop.Model.Text.{Text, trim_space}
use rss_workshop.Filter.Text.{Libraries, normalize}
use rss_workshop.Filter.Compile.{
  FilterRule, RuleList, leaf, node, nil, cons, FilterSet, title, CompiledRules, compiled, none_left,
  rule_then, Budget, RulePath, rule, side, CompileError, too_deep, too_many_nodes,
  too_many_keywords, bad_group, bad_keyword_rule, bad_keyword, OpKind, group, keyword, unknown,
  op_kind, field_of, keyword_valid, keyword_count, keywords_of, is_nil, no_rules, field_or_error,
  enter, max_nodes, max_keywords, max_depth, compile_keywords, compile_flat, compile_tree,
  compile_rule, compile_rules, compile_side, compile_set,
}
use rss_workshop.Filter.Meaning.{every}
use rss_workshop.Filter.Limits.{
  nodes, nodes_all, keywords, keywords_all, height, height_all, trimmed_valid, well_formed,
  well_formed_all, side_size, side_formed, WithinLimits,
}

-- What compiling from the budget `b` at a depth has shown of a tree, and the budget it leaves.
pub record Spent (b : Budget) (depth n k h : ℕ) (formed : Bool) (b' : Budget) : Type 0 where
  pub nodes_spent : b'.nodes ≡ b.nodes + n
  pub keywords_spent : b'.keywords ≡ b.keywords + k
  pub nodes_fit : b.nodes ≤ max_nodes → b'.nodes ≤ max_nodes
  pub keywords_fit : b.keywords ≤ max_keywords → b'.keywords ≤ max_keywords
  pub depth_fits : depth ≤ suc max_depth → depth + h ≤ suc max_depth
  pub is_formed : formed ≡ true

module _ (lib : Libraries) where
  keywords-valid :
      (path : RulePath) (i : ℕ) (ks : List Text)
      → Returns (λ cs. every trimmed_valid ks ≡ true) (compile_keywords lib path i ks)
  unfolding compile_keywords
  keywords-valid path i [] = Returns-ok [] refl
  keywords-valid path i (k ∷ ks) =
      Returns-guard (keyword_valid (trim_space k)) (bad_keyword path (i + 1)) _ λ v.
        Returns-bind (compile_keywords lib path (suc i) ks) _ λ cs e.
          Returns-ok (normalize lib (trim_space k) ∷ cs)
            (let p = (keywords-valid path (suc i) ks).at cs e in ground arith)

  enter-spent :
      (depth : ℕ) (b : Budget)
      → Returns
          (λ b'.
            (b' ≡ record b { nodes = b.nodes + 1 }) × (depth ≤ max_depth) × (b'.nodes ≤ max_nodes))
          (enter depth b)
  unfolding enter
  enter-spent depth b = Returns-guard (leb depth max_depth) too_deep _ λ d.
      Returns-guard (leb (b.nodes + 1) max_nodes) too_many_nodes _
        λ n. Returns-ok (record b { nodes = b.nodes + 1 }) (refl, ground arith, ground arith)

  leaf-spent :
      (op field : String) (kws : Option (List Text)) (b : Budget) (path : RulePath) (k : OpKind)
      → op_kind op ≡ k
      → Returns
          (λ out.
            (out.1 ≡ record b { keywords = b.keywords + keyword_count kws })
            × (keyword_count kws ≤ max_keywords - b.keywords)
            × (well_formed (leaf op field kws) ≡ true))
          (compile_flat lib k op field kws b path)
  unfolding compile_flat well_formed
  leaf-spent op field kws b path group e = Returns-err _
  leaf-spent op field kws b path unknown e = Returns-err _
  leaf-spent op field kws b path keyword e =
      Returns-guard (not (leb (keyword_count kws) 0)) (bad_keyword_rule path) _ λ some_keywords.
        Returns-bind (field_or_error path (field_of field)) _ λ f found.
          Returns-guard (leb (keyword_count kws) (max_keywords - b.keywords)) too_many_keywords _
            λ fits. Returns-bind (compile_keywords lib path 0 (keywords_of kws)) _ λ ks done.
              Returns-ok
                (compiled op f ks none_left, record b { keywords = b.keywords + keyword_count kws })
                (let p = (keywords-valid path 0 (keywords_of kws)).at ks done in
                  (refl, ground arith, ground arith))

  tree-Spent :
      (op field : String) (kws : Option (List Text)) (rules : RuleList) (b : Budget) (depth : ℕ)
      (path : RulePath) (k : OpKind) (m : Result CompileError (CompiledRules × Budget))
      → op_kind op ≡ k
      → Returns
          (λ out.
            Spent b depth
              (nodes_all rules)
              (keywords_all rules)
              (height_all rules)
              (well_formed_all rules)
              out.1)
          m
      → Returns
          (λ out.
            Spent b depth
              (nodes_all rules)
              (keywords_all rules)
              (height_all rules)
              (well_formed (node op rules field kws))
              out.1)
          (compile_tree lib k op
            (no_rules rules || not (str_eq field "") || not (is_nil kws))
            path
            m)
  unfolding compile_tree well_formed
  tree-Spent op field kws rules b depth path group m e h =
      let wrong = no_rules rules || not (str_eq field "") || not (is_nil kws) in
      Returns-guard (not wrong) (bad_group path) _ λ right. Returns-bind m _ λ out done.
        let s = h.at out done in
        Returns-ok (compiled op title [] out.0, out.1)
          (record {
            nodes_spent = s.nodes_spent;
            keywords_spent = s.keywords_spent;
            nodes_fit = s.nodes_fit;
            keywords_fit = s.keywords_fit;
            depth_fits = s.depth_fits;
            is_formed = ground (arith, s.is_formed);
          })
  tree-Spent op field kws rules b depth path keyword m e h = Returns-err _
  tree-Spent op field kws rules b depth path unknown m e h = Returns-err _

  mutual
    unfolding compile_rule nodes keywords height well_formed

    pub rule-Spent :
        (r : FilterRule) (b : Budget) (depth : ℕ) (path : RulePath)
        → Returns
            (λ out. Spent b depth (nodes r) (keywords r) (height r) (well_formed r) out.1)
            (compile_rule lib r b depth path)
    rule-Spent (leaf op field kws) b depth path = Returns-bind (enter depth b) _ λ b' entered.
        record {
          at = λ out done.
              let (e, d, n) = (enter-spent depth b).at b' entered in
              let (e', k, w) = (leaf-spent op field kws b' path (op_kind op) refl).at out done in
              record {
                nodes_spent = ground arith;
                keywords_spent = ground arith;
                nodes_fit = ground arith;
                keywords_fit = ground arith;
                depth_fits = ground arith;
                is_formed = w;
              };
        }
    rule-Spent (node op rules field kws) b depth path = Returns-bind (enter depth b) _ λ b' entered.
        record {
          at = λ out done.
              let (e, d, n) = (enter-spent depth b).at b' entered in
              let s =
                (tree-Spent op field kws rules b' (depth + 1) path (op_kind op) _ refl
                    (rules-Spent rules b' (depth + 1) path 0)).at
                  out done in
              record {
                nodes_spent = ground (arith, s);
                keywords_spent = ground (arith, s);
                nodes_fit = ground (arith, s);
                keywords_fit = ground (arith, s);
                depth_fits = ground (arith, s);
                is_formed = s.is_formed;
              };
        }

    rules-Spent :
        (rs : RuleList) (b : Budget) (depth : ℕ) (path : RulePath) (i : ℕ)
        → Returns
            (λ out.
              Spent b depth
                (nodes_all rs)
                (keywords_all rs)
                (height_all rs)
                (well_formed_all rs)
                out.1)
            (compile_rules lib rs b depth path i)
    rules-Spent nil b depth path i = Returns-ok (none_left, b) (ground arith)
    rules-Spent (cons r rs) b depth path i =
        Returns-bind (compile_rule lib r b depth (rule path (i + 1))) _ λ out done.
          Returns-bind (compile_rules lib rs out.1 depth path (suc i)) _ λ outs dones.
            Returns-ok (rule_then out.0 outs.0, outs.1)
              (let s = (rule-Spent r b depth (rule path (i + 1))).at out done in
                let t = (rules-Spent rs out.1 depth path (suc i)).at outs dones in
                record {
                  nodes_spent = ground (arith, s, t);
                  keywords_spent = ground (arith, s, t);
                  nodes_fit = ground (arith, s, t);
                  keywords_fit = ground (arith, s, t);
                  depth_fits = ground (arith, s, t);
                  is_formed = ground (arith, s.is_formed, t.is_formed);
                })

  pub side-Spent :
      (name : String) (r : Option FilterRule) (b : Budget)
      → Returns
          (λ out.
            Spent b 1
              (side_size nodes r)
              (side_size keywords r)
              (side_size height r)
              (side_formed r)
              out.1)
          (compile_side lib name r b)
  unfolding compile_side
  side-Spent name none b = Returns-ok (none, b) (ground arith)
  side-Spent name (some r) b =
      Returns-bind (compile_rule lib r b 1 (side name)) _
        λ out done. Returns-ok (some out.0, out.1) ((rule-Spent r b 1 (side name)).at out done)

  pub set-limits : (set : FilterSet) → Returns (λ m. WithinLimits set) (compile_set lib set)
  unfolding compile_set
  set-limits set =
      Returns-bind (compile_side lib "include" set.include (record { nodes = 0; keywords = 0 })) _
        λ i done. Returns-bind (compile_side lib "exclude" set.exclude i.1) _ λ e done'.
          let s = (side-Spent "include" set.include _).at i done in
          let t = (side-Spent "exclude" set.exclude i.1).at e done' in
          Returns-ok (record { include = i.0; exclude = e.0 })
            (record {
              include_formed = s.is_formed;
              exclude_formed = t.is_formed;
              few_nodes = omega (arith, s, t);
              few_keywords = omega (arith, s, t);
              include_flat = omega (arith, s);
              exclude_flat = omega (arith, t);
            })
