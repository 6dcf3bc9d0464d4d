-- ===== src/Filter/Compile.antt =====
-- internal/filter/filter.go: `Compile` and `compileRule`, which validate a filter set and count
-- its nodes and keywords across both sides. The error texts are constructors with their path.
pub use rss_workshop.Model.Filters.{FilterRule, RuleList, leaf, node, nil, cons, FilterSet}
use rss_workshop.Common.{
  ℕ, suc, ◌+◌, ◌-◌, String, str_eq, Bool, true, false, not, ◌&&◌, ◌||◌, Option, none, some, List,
  [], ◌∷◌, leb, if◌then◌else◌, length,
}
use rss_workshop.Common.Result.{Result, ok, err, ◌>>=◌, ◌>>◌, guard}
use rss_workshop.Model.Text.{Text, trim_space, valid_string}
use rss_workshop.Filter.Text.{Libraries, normalize}

abbrev pub max_keywords : ℕ
max_keywords = 500

abbrev pub max_nodes : ℕ
max_nodes = 128

abbrev pub max_depth : ℕ
max_depth = 8

abbrev pub max_keyword_characters : ℕ
max_keyword_characters = 256

pub data Field : Type 0 where
  title description link : Field

-- `rules` is empty for a keyword rule, and `keywords` for a group.
mutual
  pub data CompiledRule : Type 0 where
    compiled : (op : String) (field : Field) (keywords : List Text) → CompiledRules → CompiledRule

  pub data CompiledRules : Type 0 where
    none_left : CompiledRules
    rule_then : CompiledRule → CompiledRules → CompiledRules

pub record Matcher : Type 0 where
  pub include : Option CompiledRule
  pub exclude : Option CompiledRule

pub record Budget : Type 0 where
  pub nodes : ℕ
  pub keywords : ℕ

-- Where an error is: the side, and the number of the child rule on each level, from 1.
pub data RulePath : Type 0 where
  side : String → RulePath
  rule : RulePath → ℕ → RulePath

pub data CompileError : Type 0 where
  too_deep too_many_nodes too_many_keywords : CompileError
  bad_group bad_keyword_rule bad_field bad_operator : RulePath → CompileError
  bad_keyword : RulePath → ℕ → CompileError

-- The cases of `switch r.Op`.
pub data OpKind : Type 0 where
  group keyword unknown : OpKind

unfoldable pub op_kind : String → OpKind
op_kind op =
    if str_eq op "all"
    then group
    else if str_eq op "any"
    then group
    else if str_eq op "contains_any"
    then keyword
    else if str_eq op "contains_all"
    then keyword
    else unknown

unfoldable pub field_of : String → Option Field
field_of f =
    if str_eq f "title"
    then some title
    else if str_eq f "description"
    then some description
    else if str_eq f "link"
    then some link
    else none

unfoldable pub keyword_valid : Text → Bool
keyword_valid k = not (leb (length k) 0) && valid_string k && leb (length k) max_keyword_characters

abbrev pub keyword_count : Option (List Text) → ℕ
keyword_count none = 0
keyword_count (some ks) = length ks

abbrev pub keywords_of : Option (List Text) → List Text
keywords_of none = []
keywords_of (some ks) = ks

abbrev pub is_nil : Option (List Text) → Bool
is_nil none = true
is_nil (some _) = false

abbrev pub no_rules : RuleList → Bool
no_rules nil = true
no_rules (cons _ _) = false

abbrev pub field_or_error : RulePath → Option Field → Result CompileError Field
field_or_error path none = err (bad_field path)
field_or_error path (some f) = ok f

-- The first checks of `compileRule`: the nesting, and one more node.
unfoldable pub enter : ℕ → Budget → Result CompileError Budget
enter depth b = do
  guard (leb depth max_depth) too_deep
  guard (leb (b.nodes + 1) max_nodes) too_many_nodes
  ok (record b { nodes = b.nodes + 1 })

module _ (lib : Libraries) where
  -- The loop over `r.Keywords`, from the keyword of index `i`.
  unfoldable pub compile_keywords : RulePath → ℕ → List Text → Result CompileError (List Text)
  compile_keywords path i [] = ok []
  compile_keywords path i (k ∷ ks) = do
    guard (keyword_valid (trim_space k)) (bad_keyword path (i + 1))
    rest ← compile_keywords path (suc i) ks
    ok (normalize lib (trim_space k) ∷ rest)

  -- The case of "contains_any" and "contains_all", without the test that `Rules` is nil.
  unfoldable pub compile_leaf :
      String
      → String
      → Option (List Text)
      → Budget
      → RulePath
      → Result CompileError (CompiledRule × Budget)
  unfolding field_of compile_keywords
  compile_leaf op field kws b path = do
    guard (not (leb (keyword_count kws) 0)) (bad_keyword_rule path)
    f ← field_or_error path (field_of field)
    guard (leb (keyword_count kws) (max_keywords - b.keywords)) too_many_keywords
    ks ← compile_keywords path 0 (keywords_of kws)
    ok (compiled op f ks none_left, record b { keywords = b.keywords + keyword_count kws })

  -- The switch for a rule whose `Rules` is nil.
  unfoldable pub compile_flat :
      OpKind
      → String
      → String
      → Option (List Text)
      → Budget
      → RulePath
      → Result CompileError (CompiledRule × Budget)
  unfolding compile_leaf
  compile_flat group op field kws b path = err (bad_group path)
  compile_flat keyword op field kws b path = compile_leaf op field kws b path
  compile_flat unknown op field kws b path = err (bad_operator path)

  -- The switch for a rule whose `Rules` is a slice; `children` compiles it.
  unfoldable pub compile_tree :
      OpKind
      → String
      → Bool
      → RulePath
      → Result CompileError (CompiledRules × Budget)
      → Result CompileError (CompiledRule × Budget)
  compile_tree group op wrong path children = do
    guard (not wrong) (bad_group path)
    (cs, b) ← children
    ok (compiled op title [] cs, b)
  compile_tree keyword op wrong path children = err (bad_keyword_rule path)
  compile_tree unknown op wrong path children = err (bad_operator path)

  unfoldable mutual
    unfolding enter op_kind compile_flat compile_tree

    pub compile_rule :
        FilterRule → Budget → ℕ → RulePath → Result CompileError (CompiledRule × Budget)
    compile_rule (leaf op field kws) b depth path = do
      b' ← enter depth b
      compile_flat (op_kind op) op field kws b' path
    compile_rule (node op rules field kws) b depth path = do
      b' ← enter depth b
      compile_tree (op_kind op) op (no_rules rules || not (str_eq field "") || not (is_nil kws))
          path (compile_rules rules b' (depth + 1) path 0)

    -- The loop over `r.Rules`, from the child of index `i`.
    pub compile_rules :
        RuleList → Budget → ℕ → RulePath → ℕ → Result CompileError (CompiledRules × Budget)
    compile_rules nil b depth path i = ok (none_left, b)
    compile_rules (cons r rs) b depth path i = do
      (c, b') ← compile_rule r b depth (rule path (i + 1))
      (cs, b'') ← compile_rules rs b' depth path (suc i)
      ok (rule_then c cs, b'')

  -- One side of `Compile`; a nil rule is left nil.
  unfoldable pub compile_side :
      String → Option FilterRule → Budget → Result CompileError (Option CompiledRule × Budget)
  unfolding compile_rule
  compile_side name none b = ok (none, b)
  compile_side name (some r) b = do (c, b') ← compile_rule r b 1 (side name); ok (some c, b')

  -- `Compile` of a set that is not nil.
  unfoldable pub compile_set : FilterSet → Result CompileError Matcher
  unfolding compile_side
  compile_set set = do
    (i, b) ← compile_side "include" set.include (record { nodes = 0; keywords = 0 })
    (e, b') ← compile_side "exclude" set.exclude b
    ok (record { include = i; exclude = e })

  unfoldable pub compile : Option FilterSet → Result CompileError Matcher
  unfolding compile_set
  compile none = ok (record { include = none; exclude = none })
  compile (some set) = compile_set set
