-- ===== src/Scheduler/Dispatch/Sorted.antt =====
-- The order of the feeds that are due.
use rss_workshop.Common.{◌≤◌, inl, inr, List, [], ◌∷◌, ◌++◌, leb, arith, Bool-cases}
use rss_workshop.Model.Item.{Time}
use rss_workshop.Model.Feed.{Feed}
use rss_workshop.Scheduler.Dispatch.{insert_feed, sort_feeds}

-- Each feed of the list is due at `t` or before.
abbrev pub AllUpTo : Time → List Feed → Type 0
AllUpTo t [] = Unit
AllUpTo t (f ∷ fs) = (f.next_run ≤ t) × AllUpTo t fs

abbrev pub AllFrom : Time → List Feed → Type 0
AllFrom t [] = Unit
AllFrom t (f ∷ fs) = (t ≤ f.next_run) × AllFrom t fs

abbrev pub IsSorted : List Feed → Type 0
IsSorted [] = Unit
IsSorted (f ∷ fs) = AllFrom f.next_run fs × IsSorted fs

AllFrom-le : (t u : Time) (fs : List Feed) → t ≤ u → AllFrom u fs → AllFrom t fs
AllFrom-le t u [] h a = tt
AllFrom-le t u (f ∷ fs) h a = (omega (arith, a.0), AllFrom-le t u fs h a.1)

AllFrom-insert_feed :
    (t : Time) (f : Feed) (fs : List Feed)
    → t ≤ f.next_run
    → AllFrom t fs
    → AllFrom t (insert_feed f fs)
unfolding insert_feed
AllFrom-insert_feed t f [] h a = (h, tt)
AllFrom-insert_feed t f (g ∷ gs) h a =
    let rest = AllFrom-insert_feed t f gs h a.1 in
    elim (Bool-cases (leb f.next_run g.next_run)) [ inl e ↦ rw e (h, a) | inr e ↦ rw e (a.0, rest) ]

insert_feed-IsSorted : (f : Feed) (fs : List Feed) → IsSorted fs → IsSorted (insert_feed f fs)
unfolding insert_feed
insert_feed-IsSorted f [] s = (tt, tt)
insert_feed-IsSorted f (g ∷ gs) s =
    let rest = insert_feed-IsSorted f gs s.1 in
    elim (Bool-cases (leb f.next_run g.next_run)) [
      | inl e ↦
          let le : f.next_run ≤ g.next_run = ground arith in
          rw e ((le, AllFrom-le f.next_run g.next_run gs le s.0), s)
      | inr e ↦ rw e (AllFrom-insert_feed g.next_run f gs (ground arith) s.0, rest)
    ]

pub sort_feeds-IsSorted : (fs : List Feed) → IsSorted (sort_feeds fs)
unfolding sort_feeds
sort_feeds-IsSorted [] = tt
sort_feeds-IsSorted (f ∷ fs) = insert_feed-IsSorted f (sort_feeds fs) (sort_feeds-IsSorted fs)

AllFrom-split :
    (t : Time) (f : Feed) (before after : List Feed)
    → AllFrom t (before ++ (f ∷ after))
    → t ≤ f.next_run
AllFrom-split t f [] after a = a.0
AllFrom-split t f (g ∷ gs) after a = AllFrom-split t f gs after a.1

pub before-AllUpTo :
    (f : Feed) (before after : List Feed)
    → IsSorted (before ++ (f ∷ after))
    → AllUpTo f.next_run before
before-AllUpTo f [] after s = tt
before-AllUpTo f (g ∷ gs) after s =
    (AllFrom-split g.next_run f gs after s.0, before-AllUpTo f gs after s.1)
