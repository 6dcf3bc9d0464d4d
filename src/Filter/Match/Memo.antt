-- ===== src/Filter/Match/Memo.antt =====
-- The texts that a `Subject` remembers do not change what the rules match.
use rss_workshop.Common.{◌≡◌, refl, Bool, true, false, not, ◌&&◌, ◌||◌, Option, none, some, arith}
use rss_workshop.Model.Text.{Text}
use rss_workshop.Model.Item.{Item}
use rss_workshop.Filter.Text.{Libraries}
use rss_workshop.Filter.Compile.{
  Field, title, description, link, CompiledRule, CompiledRules, compiled, none_left, rule_then,
}
use rss_workshop.Filter.Match.{
  Subject, new_subject, any_keyword, all_keywords, match_kind, match_all, match_any,
  match_contains_all, match_contains_any, field_text, value, match_rule, match_all_rules,
  match_any_rules, evaluate,
}

module _ (lib : Libraries) where
  -- The rules on the texts of the item, nothing remembered.
  unfoldable mutual
    unfolding match_kind any_keyword all_keywords

    pub matches : CompiledRule → Item → Bool
    matches (compiled op f ks rules) it = elim (match_kind op) [
      | match_all ↦ matches_all rules it
      | match_any ↦ matches_any rules it
      | match_contains_all ↦ all_keywords (field_text lib f it) ks
      | match_contains_any ↦ any_keyword (field_text lib f it) ks
    ]

    pub matches_all : CompiledRules → Item → Bool
    matches_all none_left it = true
    matches_all (rule_then r rs) it = matches r it && matches_all rs it

    pub matches_any : CompiledRules → Item → Bool
    matches_any none_left it = false
    matches_any (rule_then r rs) it = matches r it || matches_any rs it

  abbrev Remembers : Option Text → Text → Type 0
  Remembers none t = Unit
  Remembers (some v) t = v ≡ t

  record IsFresh (it : Item) (s : Subject) : Type 0 where
    same_item : s.item ≡ it
    of_title : Remembers s.title_value (field_text lib title it)
    of_description : Remembers s.description_value (field_text lib description it)
    of_link : Remembers s.link_value (field_text lib link it)

  new_subject-IsFresh : (it : Item) → IsFresh it (new_subject it)
  new_subject-IsFresh it = record {
    same_item = refl;
    of_title = tt;
    of_description = tt;
    of_link = tt;
  }

  value-IsFresh :
      (it : Item) (f : Field) (s : Subject)
      → IsFresh it s
      → ((value lib f s).0 ≡ field_text lib f it) × IsFresh it (value lib f s).1
  unfolding value
  value-IsFresh it title s h = ground arith
  value-IsFresh it description s h = ground arith
  value-IsFresh it link s h = ground arith

  mutual
    unfolding match_rule matches match_kind

    match_rule-IsFresh :
        (it : Item) (r : CompiledRule) (s : Subject)
        → IsFresh it s
        → ((match_rule lib r s).0 ≡ matches r it) × IsFresh it (match_rule lib r s).1
    match_rule-IsFresh it (compiled op f ks rules) s h = ground (
      arith,
      value-IsFresh it f s h,
      match_all_rules-IsFresh it rules s h,
      match_any_rules-IsFresh it rules s h,
    )

    match_all_rules-IsFresh :
        (it : Item) (rs : CompiledRules) (s : Subject)
        → IsFresh it s
        → ((match_all_rules lib rs s).0 ≡ matches_all rs it)
          × IsFresh it (match_all_rules lib rs s).1
    match_all_rules-IsFresh it none_left s h = (refl, h)
    match_all_rules-IsFresh it (rule_then r rs) s h =
        let (e, h') = match_rule-IsFresh it r s h in
        let (e', h'') = match_all_rules-IsFresh it rs (match_rule lib r s).1 h' in ground arith

    match_any_rules-IsFresh :
        (it : Item) (rs : CompiledRules) (s : Subject)
        → IsFresh it s
        → ((match_any_rules lib rs s).0 ≡ matches_any rs it)
          × IsFresh it (match_any_rules lib rs s).1
    match_any_rules-IsFresh it none_left s h = (refl, h)
    match_any_rules-IsFresh it (rule_then r rs) s h =
        let (e, h') = match_rule-IsFresh it r s h in
        let (e', h'') = match_any_rules-IsFresh it rs (match_rule lib r s).1 h' in ground arith

  abbrev pub matches_include : Option CompiledRule → Item → Bool
  matches_include none it = true
  matches_include (some r) it = matches r it

  abbrev pub matches_exclude : Option CompiledRule → Item → Bool
  matches_exclude none it = false
  matches_exclude (some r) it = matches r it

  -- The verdict, with or without an explanation.
  pub evaluate-matches :
      (i e : Option CompiledRule) (it : Item) (explain : Bool)
      → (evaluate lib (record { include = i; exclude = e }) it explain).matched
        ≡ (matches_include i it && not (matches_exclude e it))
  unfolding evaluate
  evaluate-matches none none it explain = refl
  evaluate-matches none (some r) it explain =
      let (p, _) = match_rule-IsFresh it r (new_subject it) (new_subject-IsFresh it) in ground arith
  evaluate-matches (some r) none it explain =
      let (p, _) = match_rule-IsFresh it r (new_subject it) (new_subject-IsFresh it) in ground arith
  evaluate-matches (some r) (some q) it explain =
      let (p, h) = match_rule-IsFresh it r (new_subject it) (new_subject-IsFresh it) in
      let (p', _) = match_rule-IsFresh it q (match_rule lib r (new_subject it)).1 h in ground arith
