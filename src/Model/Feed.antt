-- ===== src/Model/Feed.antt =====
-- internal/model/model.go: `Field`, `Recipe`, `FullContent` and `Feed`. `ETag`, URLs and the like
-- are only compared, so they are native strings; `Interval` and `QuietDays` are Go ints.
use rss_workshop.Common.{ℕ, String, Option, List, Bool}
use rss_workshop.Common.Int.{ℤ}
use rss_workshop.Model.Item.{Time}
use rss_workshop.Model.Filters.{FilterSet}

pub record Field : Type 0 where
  pub selector : String
  pub attr : String

pub record FullContent : Type 0 where
  pub selector : String
  pub attr : String
  pub browser : Bool

pub record Recipe : Type 0 where
  pub mode : String
  pub wait_selector : String
  pub settle_ms : ℤ
  pub type : String
  pub items : String
  pub title : Field
  pub link : Field
  pub date : Field
  pub content : Field
  pub image : Field
  pub date_layout : String
  pub timezone : String
  pub filters : Option FilterSet
  pub full : Option FullContent
  pub remove : List String
  pub user_agent : String
  pub accept_language : String
  pub quiet_days : ℤ

pub record Feed : Type 0 where
  pub id : String
  pub title : String
  pub url : String
  pub recipe : Recipe
  pub interval : ℤ
  pub enabled : Bool
  pub next_run : Time
  pub last_attempt : Time
  pub last_success : Time
  pub last_changed : Time
  pub last_new : Time
  pub error : String
  pub failures : ℕ
  pub etag : String
  pub last_modified : String
  pub version : ℕ
  pub count : ℕ
  pub filter_ids : List String
  pub rss_token : String
  pub rss_url : String
  pub atom_url : String
  pub held : Bool
  pub quiet : Bool
