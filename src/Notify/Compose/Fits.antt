-- ===== src/Notify/Compose/Fits.antt =====
-- What a message lists, and its size.
use rss_workshop.Common.{
  ℕ, zero, suc, ◌+◌, ◌-◌, ◌/◌, ◌%◌, ◌≤◌, ◌≡◌, refl, true, false, List, [], ◌∷◌, ◌++◌, length, take,
  arith, length-append,
}
use rss_workshop.Model.Text.{Text}
use rss_workshop.Scheduler.Alerts.{Event}
use rss_workshop.Notify.Compose.{
  Format, ntfy, max_lines, max_ntfy_body, max_dashboard, digits, more_start, more_end, of_class,
  sort_events, reserve_for, trim_newline, lines, more_line, library_line, compose,
}

length-digits : (fuel n : ℕ) → length (digits fuel n) ≤ fuel
unfolding digits
length-digits zero n = omega arith
length-digits (suc fuel) n =
    ground (
      arith,
      length-digits fuel (n / 10),
      length-append (digits fuel (n / 10)) ((48 + n % 10) ∷ []),
    )

length-trim_newline : (t : Text) → length (trim_newline t) ≤ length t
unfolding trim_newline
length-trim_newline [] = omega arith
length-trim_newline (c ∷ []) = ground arith
length-trim_newline (c ∷ d ∷ t) = omega (arith, length-trim_newline (d ∷ t))

of_class-count :
    (es : List Event) → length (of_class true es) + length (of_class false es) ≡ length es
unfolding of_class
of_class-count [] = omega arith
of_class-count (e ∷ es) = ground (arith, of_class-count es)

length-sort_events : (es : List Event) → length (sort_events es) ≡ length es
unfolding sort_events
length-sort_events es =
    omega (arith, length-append (of_class true es) (of_class false es), of_class-count es)

length-more_line : (n : ℕ) → length (more_line n) ≤ length more_start + length more_end + 20
unfolding more_line
length-more_line zero = omega arith
length-more_line (suc n) =
    omega (arith, length-digits 20 (suc n), length-append (digits 20 (suc n)) more_end)

-- What follows the lines has room.
length-rest :
    (n : ℕ) (dashboard : Text)
    → length (more_line n ++ library_line dashboard) ≤ reserve_for dashboard
unfolding library_line reserve_for
length-rest n [] = omega (arith, length-append (more_line n) [], length-more_line n)
length-rest n (c ∷ d) = omega (
  arith,
  length-append (more_line n) (library_line (c ∷ d)),
  length-more_line n,
  length-append (c ∷ d) (10 ∷ []),
)

reserve_for-le :
    (dashboard : Text) → length dashboard ≤ max_dashboard → reserve_for dashboard ≤ max_ntfy_body
unfolding reserve_for
reserve_for-le [] h = omega arith
reserve_for-le (c ∷ d) h = omega arith

module _ (describe : Event → Text) where
  -- What the loop lists is a first part of the events, of at most the lines left, and it counts
  -- the others.
  lines-listed :
      (format : Format) (room i size : ℕ) (es : List Event)
      → i ≤ max_lines
      → let (text, listed, more) = lines describe format room i size es in
        (length listed + more ≡ length es)
        × (i + length listed ≤ max_lines)
        × (listed ≡ take (length listed) es)
  unfolding lines
  lines-listed format room i size [] h = (omega arith, omega arith, refl)
  lines-listed format room i size (e ∷ es) h =
      ground (arith, lines-listed format room (suc i) (size + length (describe e ++ (10 ∷ []))) es)

  lines-size :
      (room i size : ℕ) (es : List Event)
      → size ≤ room
      → size + length ((lines describe ntfy room i size es).0) ≤ room
  unfolding lines
  lines-size room i size [] h = omega arith
  lines-size room i size (e ∷ es) h = ground (
    arith,
    lines-size room (suc i) (size + length (describe e ++ (10 ∷ []))) es,
    length-append (describe e ++ (10 ∷ []))
        ((lines describe ntfy room (suc i) (size + length (describe e ++ (10 ∷ []))) es).0),
  )

  -- A message lists the events of the server first and then those of the feeds, each in their
  -- order; of that list it shows a first part of at most 20 events, and with the events already
  -- counted, the number of those it leaves out is exact.
  pub compose-counts :
      (format : Format) (dashboard : Text) (es : List Event) (extra : ℕ)
      → let m = compose describe format dashboard es extra in
        (length m.events + m.more ≡ length es + extra)
        × (length m.events ≤ max_lines)
        × (m.events ≡ take (length m.events) (of_class true es ++ of_class false es))
  unfolding compose sort_events
  compose-counts format dashboard es extra = ground (
    arith,
    lines-listed format (max_ntfy_body - reserve_for dashboard) 0 0 (sort_events es),
    length-sort_events es,
  )

  -- The body of an ntfy message stays within 4,000 bytes, whatever the events say and however many
  -- there are, where the link to the library is one that `New` accepts.
  pub compose-fits :
      (dashboard : Text) (es : List Event) (extra : ℕ)
      → length dashboard ≤ max_dashboard
      → length (compose describe ntfy dashboard es extra).text ≤ max_ntfy_body
  unfolding compose
  compose-fits dashboard es extra h =
      let sorted = sort_events es in
      let room = max_ntfy_body - reserve_for dashboard in
      let (text, listed, left) = lines describe ntfy room 0 0 sorted in
      let rest = more_line (left + extra) ++ library_line dashboard in
      omega (
        arith,
        lines-size room 0 0 sorted (omega arith),
        length-rest (left + extra) dashboard,
        reserve_for-le dashboard h,
        length-append text rest,
        length-trim_newline (text ++ rest),
      )
