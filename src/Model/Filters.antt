-- ===== src/Model/Filters.antt =====
-- internal/model/filters.go: filter sets and their rule trees.
use rss_workshop.Common.{String, Option, List}
use rss_workshop.Model.Text.{Text}

-- `Rules` may be nil (`leaf`) or a slice (`node`); the validation tells the two apart.
-- `keywords` is `none` for a nil slice.
mutual
  pub data FilterRule : Type 0 where
    leaf : (op field : String) → (keywords : Option (List Text)) → FilterRule
    node :
        (op : String)
        → (rules : RuleList) → (field : String) → (keywords : Option (List Text)) → FilterRule

  pub data RuleList : Type 0 where
    nil : RuleList
    cons : FilterRule → RuleList → RuleList

pub record FilterSet : Type 0 where
  pub include : Option FilterRule
  pub exclude : Option FilterRule

pub record LibraryFilter : Type 0 where
  pub id : String
  pub name : Text
  pub filters : FilterSet
  pub feed_ids : List String
