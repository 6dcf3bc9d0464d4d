-- ===== src/Scheduler/Dispatch/Oldest.antt =====
-- The feeds that are due first are served first.
use rss_workshop.Common.{
  ◌≡◌, ◌≢◌, refl, subst, inl, inr, String, Bool, true, false, none, List, [], ◌∷◌, ◌++◌, ◌==◌,
  if◌then◌else◌, arith, Bool-cases,
}
use rss_workshop.Common.Assoc.{contains}
use rss_workshop.Model.Item.{Time}
use rss_workshop.Model.Feed.{Feed}
use rss_workshop.Scheduler.Slots.{
  Scheduler, Services, no_chromium, need_chromium, uses_solver, renders_pages, reserve,
}
use rss_workshop.Scheduler.Slots.Invariant.{reserve-Admitted}
use rss_workshop.Scheduler.Holds.{forget_holds, forget_finished}
use rss_workshop.Scheduler.Backlog.{forget_backlog}
use rss_workshop.Scheduler.Alerts.{Alerts}
use rss_workshop.Scheduler.Dispatch.{
  sort_feeds, skipped, stopped, started, turn_of, turn, start_due, dispatch,
}
use rss_workshop.Scheduler.Dispatch.Sorted.{AllUpTo, IsSorted, sort_feeds-IsSorted, before-AllUpTo}
use rss_workshop.Scheduler.Dispatch.Ready.{
  Served, IsReady, Keeps, Admitted-Keeps, Turn-cases, reserve-full, reserve-ready, IsReady-Keeps,
  Served-cons, turn_of-started, turn_of_continues,
}

module _ (v : Services) (now listed : Time) (stopping : Feed → Bool)
    (running : (f : Feed) → stopping f ≡ false) where
  turn-reserve :
      (g : Feed) (s t : Scheduler)
      → turn v now listed stopping g s ≡ started t
      → turn_of (
          reserve v g.id
            (uses_solver v g.recipe.mode)
            (if renders_pages g then need_chromium else no_chromium)
            listed
            s)
        ≡ started t
  unfolding turn
  turn-reserve g s t h = ground arith

  turn-Keeps : (g : Feed) (s t : Scheduler) → turn v now listed stopping g s ≡ started t → Keeps s t
  turn-Keeps g s t h =
      let solver = uses_solver v g.recipe.mode in
      let browser = if renders_pages g then need_chromium else no_chromium in
      let r = turn_of-started (reserve v g.id solver browser listed s) t (turn-reserve g s t h) in
      Admitted-Keeps v g.id solver browser s t
        ((reserve-Admitted v g.id solver browser listed s).at t r)

  never_stopped : (g : Feed) (s : Scheduler) → turn v now listed stopping g s ≢ stopped
  unfolding turn
  never_stopped g s h =
      let solver = uses_solver v g.recipe.mode in
      let browser = if renders_pages g then need_chromium else no_chromium in
      turn_of_continues (reserve v g.id solver browser listed s) (ground (arith, running g))

  full-turn :
      (g : Feed) (s : Scheduler)
      → (s.slots == s.capacity) ≡ true
      → turn v now listed stopping g s ≡ skipped
  unfolding turn
  full-turn g s h =
      let solver = uses_solver v g.recipe.mode in
      let browser = if renders_pages g then need_chromium else no_chromium in
      ground (arith, running g, reserve-full v g.id solver browser listed s h)

  full-start_due :
      (fs : List Feed) (s : Scheduler)
      → (s.slots == s.capacity) ≡ true
      → start_due v now listed stopping fs s ≡ ([], s)
  unfolding start_due
  full-start_due [] s h = refl
  full-start_due (f ∷ fs) s h = rw (full-turn f s h, start_due) (full-start_due fs s h)

  start_due-active :
      (fs : List Feed) (s : Scheduler) (id : String)
      → contains id s.active ≡ true
      → contains id (start_due v now listed stopping fs s).1.active ≡ true
  unfolding start_due
  start_due-active [] s id h = h
  start_due-active (f ∷ fs) s id h = elim (Turn-cases (turn v now listed stopping f s)) [
    | inl e ↦ rw (e, start_due) (start_due-active fs s id h)
    | inr (inl e) ↦ rw (e, start_due) h
    | inr (inr (t, e)) ↦
        rw (e, start_due) (start_due-active fs t id ((turn-Keeps f s t e).active_kept id h))
  ]

  ready-turn :
      (f : Feed) (s : Scheduler)
      → IsReady v now listed f s
      → turn v now listed stopping f s ≡ turn_of (reserve v f.id none no_chromium listed s)
  unfolding turn
  ready-turn f s r = ground (arith, running f, r.enabled, r.due, r.free, r.no_solver, r.no_pages)

  Served-ready :
      (f : Feed) (fs : List Feed) (s : Scheduler)
      → IsReady v now listed f s
      → Served f (start_due v now listed stopping (f ∷ fs) s)
  unfolding start_due
  Served-ready f fs s r = elim (Bool-cases (s.slots == s.capacity)) [
    | inl e ↦ rw (full-start_due (f ∷ fs) s e) (inr (ground arith, tt))
    | inr e ↦ elim (Bool-cases (contains f.id s.active)) [
      | inl a ↦ inl (start_due-active (f ∷ fs) s f.id a)
      | inr a ↦
          let (t, q, c) = reserve-ready v listed f.id s e a r.unfinished in
          rw (ready-turn f s r, start_due, q) (inl (start_due-active fs t f.id c))
    ]
  ]

  -- A feed that is ready when the loop starts, and is listed after feeds that are due no later.
  Served-start_due :
      (f : Feed) (before after : List Feed) (s : Scheduler)
      → AllUpTo f.next_run before
      → IsReady v now listed f s
      → Served f (start_due v now listed stopping (before ++ (f ∷ after)) s)
  unfolding start_due
  Served-start_due f [] after s u r = Served-ready f after s r
  Served-start_due f (g ∷ gs) after s u r = elim (Turn-cases (turn v now listed stopping g s)) [
    | inl e ↦ rw (e, start_due) (Served-start_due f gs after s u.1 r)
    | inr (inl e) ↦ absurd (never_stopped g s e)
    | inr (inr (t, e)) ↦
        rw (e, start_due)
          (Served-cons f g (start_due v now listed stopping (gs ++ (f ∷ after)) t) u.0 (
            Served-start_due f gs after t u.1
              (IsReady-Keeps v now listed f s t (turn-Keeps g s t e) r)))
  ]

  -- `dispatch` serves the oldest first: the job of a feed that is due, and that waits for nothing
  -- but a slot, runs when the loop ends, or every slot is taken and no feed that is due later than
  -- it was started.
  pub Served-dispatch :
      (f : Feed) (before after fs : List Feed) (s : Scheduler) (a : Alerts)
      → sort_feeds fs ≡ before ++ (f ∷ after)
      → IsReady v now listed f (forget_finished listed (forget_backlog fs (forget_holds fs s)))
      → Served f (dispatch v now listed stopping fs s a).0
  unfolding dispatch
  Served-dispatch f before after fs s a e r =
      let kept = forget_finished listed (forget_backlog fs (forget_holds fs s)) in
      let sorted : IsSorted (before ++ (f ∷ after)) = subst IsSorted e (sort_feeds-IsSorted fs) in
      rw e (Served-start_due f before after kept (before-AllUpTo f before after sorted) r)
