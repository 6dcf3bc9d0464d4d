-- ===== src/Model/Item.antt =====
-- internal/model/model.go: `Item`. A time is the number of nanoseconds since Go's zero time, so
-- that `IsZero` is a test for 0.
use rss_workshop.Common.{ℕ, String}
use rss_workshop.Model.Text.{Text}

abbrev pub Time : Type 0
Time = ℕ

-- Without `PublishedEstimated` and `PublishedSource`, which only a preview shows and no modelled code
-- reads.
pub record Item : Type 0 where
  pub key : String
  pub guid : String
  pub title : Text
  pub url : Text
  pub html : Text
  pub image : Text
  pub full_html : Text
  pub published : Time
  pub first_seen : Time
  pub last_seen : Time
  pub last_changed : Time
