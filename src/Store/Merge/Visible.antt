-- ===== src/Store/Merge/Visible.antt =====
-- What readers are shown of a story.
use rss_workshop.Common.{
  ℕ, ◌<◌, ◌≡◌, refl, String, true, false, Option, none, some, List, [], ◌∷◌, ◌==◌, if◌then◌else◌,
  arith,
}
use rss_workshop.Common.Int.{ℤ}
use rss_workshop.Model.Text.{Text, text_eq}
use rss_workshop.Store.Rows.{Story}
use rss_workshop.Store.Merge.{find, differs, update}

-- What the feed formats read of a story. A row not merged since `last_changed` was recorded shows
-- its `last_seen`.
pub record Visible : Type 0 where
  pub guid : String
  pub title : Text
  pub url : Text
  pub html : Text
  pub image : Text
  pub content_full : Text
  pub published : ℤ
  pub updated : ℕ

abbrev pub visible : Story → Visible
visible r = record {
  guid = r.guid;
  title = r.title;
  url = r.url;
  html = r.html;
  image = r.image;
  content_full = r.content_full;
  published = r.published;
  updated = if r.last_changed == 0 then r.last_seen else r.last_changed;
}

abbrev pub visible_row : Option Story → Option Visible
visible_row none = none
visible_row (some r) = some (visible r)

-- The output of a feed: what is shown under each key.
unfoldable pub shown : String → List Story → Option Visible
unfolding find
shown k rs = visible_row (find k rs)

text_eq_sound : (t u : Text) → text_eq t u ≡ true → t ≡ u
unfolding text_eq
text_eq_sound [] [] h = refl
text_eq_sound [] (d ∷ u) h = cc
text_eq_sound (c ∷ t) [] h = cc
text_eq_sound (c ∷ t) (d ∷ u) h =
    let e : c ≡ d = ground arith in let f : t ≡ u = text_eq_sound t u (ground arith) in cc

pub visible-update :
    (r new : Story) → differs r new ≡ false → 0 < r.last_seen → visible (update r new) ≡ visible r
unfolding differs update
visible-update r new h seen = ground (
  arith,
  text_eq_sound r.title new.title,
  text_eq_sound r.url new.url,
  text_eq_sound r.html new.html,
  text_eq_sound r.image new.image,
  text_eq_sound new.content_full r.content_full,
)
