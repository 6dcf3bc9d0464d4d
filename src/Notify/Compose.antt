-- ===== src/Notify/Compose.antt =====
-- internal/notify/notify.go: `compose`, the text of a message. A text is its bytes. What one event
-- says is `describe`, a parameter.
pub mod Fits
use rss_workshop.Common.{
  ℕ, zero, suc, ◌+◌, ◌-◌, ◌/◌, ◌%◌, Bool, true, false, not, ◌&&◌, ◌||◌, Option, none, some, List,
  [], ◌∷◌, ◌++◌, ltb, leb, ◌==◌, if◌then◌else◌, length,
}
use rss_workshop.Model.Text.{Text}
use rss_workshop.Scheduler.Alerts.{Kind, test, Event}
use rss_workshop.Notify.Batch.{is_global, alerting}

pub data Format : Type 0 where
  json ntfy : Format

abbrev pub max_lines : ℕ
max_lines = 20

abbrev pub max_ntfy_body : ℕ
max_ntfy_body = 4000

abbrev pub max_dashboard : ℕ
max_dashboard = 512

-- fmt's %d for a number of at most `fuel` digits; an int has at most 19.
unfoldable pub digits : ℕ → ℕ → Text
digits zero n = []
digits (suc fuel) n =
    let rest = digits fuel (n / 10) in
    if ltb n 10 then (48 + n) ∷ [] else rest ++ ((48 + n % 10) ∷ [])

abbrev pub more_start : Text
more_start = b'.' ∷ b'.' ∷ b'.' ∷ b'a' ∷ b'n' ∷ b'd' ∷ b' ' ∷ []

abbrev pub more_end : Text
more_end = b' ' ∷ b'm' ∷ b'o' ∷ b'r' ∷ b'e' ∷ b'.' ∷ 10 ∷ []

abbrev pub library_start : Text
library_start = 10 ∷ b'L' ∷ b'i' ∷ b'b' ∷ b'r' ∷ b'a' ∷ b'r' ∷ b'y' ∷ b':' ∷ b' ' ∷ []

pub record Message : Type 0 where
  pub text : Text
  pub events : List Event
  pub more : ℕ
  pub alert : Bool
  pub test : Bool

-- The stable sort by `global`: the server-wide events first, each class in its order.
unfoldable pub of_class : Bool → List Event → List Event
of_class g [] = []
of_class g (e ∷ es) =
    let rest = of_class g es in
    elim (is_global e.kind) [
      | true ↦ (if g then e ∷ rest else rest)
      | false ↦ (if g then rest else e ∷ rest)
    ]

unfoldable pub sort_events : List Event → List Event
unfolding of_class
sort_events es = of_class true es ++ of_class false es

unfoldable pub reserve_for : Text → ℕ
reserve_for [] = length more_start + length more_end + 20
reserve_for (c ∷ d) =
    length more_start + length more_end + 20 + (length library_start + 1 + length (c ∷ d))

abbrev is_test : Kind → Bool
is_test test = true
is_test _ = false

abbrev any_event : (Kind → Bool) → List Event → Bool
any_event p [] = false
any_event p (e ∷ es) = p e.kind || any_event p es

-- strings.TrimSuffix(text, "\n")
unfoldable pub trim_newline : Text → Text
trim_newline [] = []
trim_newline (c ∷ []) = if c == 10 then [] else c ∷ []
trim_newline (c ∷ d ∷ t) = c ∷ trim_newline (d ∷ t)

unfoldable pub more_line : ℕ → Text
unfolding digits
more_line zero = []
more_line (suc n) = more_start ++ (digits 20 (suc n) ++ more_end)

unfoldable pub library_line : Text → Text
library_line [] = []
library_line (c ∷ d) = library_start ++ ((c ∷ d) ++ (10 ∷ []))

module _ (describe : Event → Text) where
  -- The loop over the events, from the place `i`, `size` bytes having been written: the lines, the
  -- events listed, and the number of those left out. Once one is left out, so are all after it.
  unfoldable pub lines : Format → ℕ → ℕ → ℕ → List Event → Text × List Event × ℕ
  lines format room i size [] = ([], [], 0)
  lines format room i size (e ∷ es) =
      let line = describe e ++ (10 ∷ []) in
      let (text, listed, more) = lines format room (suc i) (size + length line) es in
      let full : Bool = elim format [ json ↦ false | ntfy ↦ ltb room (size + length line) ] in
      if i == max_lines || full then ([], [], suc (length es)) else (line ++ text, e ∷ listed, more)

  -- `compose`; `dashboard` is empty if there is no link.
  unfoldable pub compose : Format → Text → List Event → ℕ → Message
  unfolding lines sort_events reserve_for more_line library_line trim_newline
  compose format dashboard es extra =
      let sorted = sort_events es in
      let (text, listed, left) = lines format (max_ntfy_body - reserve_for dashboard) 0 0 sorted in
      record {
        text = trim_newline (text ++ (more_line (left + extra) ++ library_line dashboard));
        events = listed;
        more = left + extra;
        alert = any_event alerting es;
        test = any_event is_test es;
      }
