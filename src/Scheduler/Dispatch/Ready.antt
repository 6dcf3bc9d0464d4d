-- ===== src/Scheduler/Dispatch/Ready.antt =====
-- What one admission leaves to the feeds after it.
use rss_workshop.Common.{
  ◌+◌, ◌≤◌, ◌≡◌, ◌≢◌, refl, ◌⊎◌, inl, inr, String, Bool, true, false, ◌||◌, Option, none, List, ◌∷◌,
  ◌==◌, arith,
}
use text.Mathlib.TextPositions.{eq_refl}
use rss_workshop.Common.Assoc.{contains, contains-add, add}
use rss_workshop.Common.Result.{Result, ok, err}
use rss_workshop.Model.Item.{Time}
use rss_workshop.Model.Feed.{Feed}
use rss_workshop.Scheduler.Slots.{
  Scheduler, Services, SolverStats, Refusal, busy, Chromium, no_chromium, uses_solver,
  renders_pages, reserve, finished_since,
}
use rss_workshop.Scheduler.Slots.Invariant.{Admitted}
use rss_workshop.Scheduler.Holds.{is_held}
use rss_workshop.Scheduler.Dispatch.{Turn, skipped, stopped, started, turn_of}
use rss_workshop.Scheduler.Dispatch.Sorted.{AllUpTo}

-- A feed's job runs, or every slot is taken and the jobs that started are due no later.
abbrev pub Served : Feed → List Feed × Scheduler → Type 0
Served f (gs, u) =
    (contains f.id u.active ≡ true) ⊎ ((u.slots ≡ u.capacity) × AllUpTo f.next_run gs)

-- A feed whose job could start: due, not held, and with nothing to wait for but a slot.
pub record IsReady (v : Services) (now listed : Time) (f : Feed) (s : Scheduler) : Type 0 where
  pub enabled : f.enabled ≡ true
  pub due : f.next_run ≤ now
  pub free : is_held now f.id s ≡ false
  pub no_solver : uses_solver v f.recipe.mode ≡ none
  pub no_pages : renders_pages f ≡ false
  pub unfinished : finished_since f.id listed s ≡ false

-- What starting other jobs leaves as it was.
pub record Keeps (s t : Scheduler) : Type 0 where
  pub held_same : t.held ≡ s.held
  pub finished_same : t.finished ≡ s.finished
  pub capacity_same : t.capacity ≡ s.capacity
  pub active_kept : (id : String) → contains id s.active ≡ true → contains id t.active ≡ true

pub Admitted-Keeps :
    (v : Services) (id : String) (solver : Option SolverStats) (browser : Chromium)
    (s t : Scheduler)
    → Admitted v id solver browser s t
    → Keeps s t
Admitted-Keeps v id solver browser s t a = record {
  held_same = rw a.result refl;
  finished_same = rw a.result refl;
  capacity_same = rw a.result refl;
  active_kept = λ other h. rw a.result (ground (arith, contains-add id other s.active));
}

pub Turn-cases : (x : Turn) → (x ≡ skipped) ⊎ ((x ≡ stopped) ⊎ ((t : Scheduler) × (x ≡ started t)))
Turn-cases skipped = inl refl
Turn-cases stopped = inr (inl refl)
Turn-cases (started t) = inr (inr (t, refl))

or_true : (b c : Bool) → c ≡ true → (b || c) ≡ true
or_true b c h = ground arith

pub reserve-full :
    (v : Services) (id : String) (solver : Option SolverStats) (browser : Chromium) (listed : Time)
    (s : Scheduler)
    → (s.slots == s.capacity) ≡ true
    → reserve v id solver browser listed s ≡ err busy
unfolding reserve
reserve-full v id solver browser listed s h =
    rw (or_true (contains id s.active) (s.slots == s.capacity) h) refl

pub reserve-ready :
    (v : Services) (listed : Time) (id : String) (s : Scheduler)
    → (s.slots == s.capacity) ≡ false
    → contains id s.active ≡ false
    → finished_since id listed s ≡ false
    → (t : Scheduler) × (reserve v id none no_chromium listed s ≡ ok t)
      × (contains id t.active ≡ true)
unfolding reserve
reserve-ready v listed id s e a n = (
  record s { slots = s.slots + 1; active = add id s.active },
  rw (a, e, n) refl,
  rw (contains-add id id s.active, eq_refl) refl,
)

pub IsReady-Keeps :
    (v : Services) (now listed : Time) (f : Feed) (s t : Scheduler)
    → Keeps s t
    → IsReady v now listed f s
    → IsReady v now listed f t
unfolding is_held finished_since
IsReady-Keeps v now listed f s t k r = record {
  enabled = r.enabled;
  due = r.due;
  free = rw k.held_same r.free;
  no_solver = r.no_solver;
  no_pages = r.no_pages;
  unfinished = rw k.finished_same r.unfinished;
}

pub Served-cons :
    (f g : Feed) (out : List Feed × Scheduler)
    → g.next_run ≤ f.next_run
    → Served f out
    → Served f (g ∷ out.0, out.1)
Served-cons f g out h (inl a) = inl a
Served-cons f g out h (inr (a, b)) = inr (a, (h, b))

pub turn_of-started :
    (r : Result Refusal Scheduler) (t : Scheduler) → turn_of r ≡ started t → r ≡ ok t
turn_of-started (ok u) t h = cc
turn_of-started (err e) t h = cc

pub turn_of_continues : (r : Result Refusal Scheduler) → turn_of r ≢ stopped
turn_of_continues (ok u) h = cc
turn_of_continues (err e) h = cc
