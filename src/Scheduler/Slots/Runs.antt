-- ===== src/Scheduler/Slots/Runs.antt =====
-- Every run of the scheduler: the steps that `mu` makes atomic, in any order.
use rss_workshop.Common.{
  ℕ, ◌≤◌, ◌<◌, ◌≡◌, refl, subst, String, Bool, true, false, Option, none, some, if◌then◌else◌,
  length, arith,
}
use rss_workshop.Common.Assoc.{
  Assoc, insert, KeySet, contains, add, remove, length-add-le, length-remove-le, remove-IsDistinct,
}
use rss_workshop.Common.Result.{ok}
use rss_workshop.Model.Item.{Time}
use rss_workshop.Scheduler.Slots.{
  Hold, Scheduler, SolverStats, Services, Chromium, chromium_slots, solver_free, solver_refuses,
  add_solving, reserve, release, finish, done_with_solver, done_with_chromium, new,
}
use rss_workshop.Scheduler.Slots.Invariant.{
  IsSound, reserve-Admitted, Admitted-IsSound, release-IsSound, Within-remove,
}

-- The pools have the same size throughout: `solver_slots` FlareSolverr slots and
-- `chromium_pool` Chromium slots. What is in use there may change at any time.
module _ (workers solver_slots chromium_pool : ℕ) where
  abbrev pub OfSize : Option SolverStats → Type 0
  OfSize none = Unit
  OfSize (some v) = v.capacity ≡ solver_slots

  pub data Step : Scheduler → Scheduler → Type 0 where
    start :
        {s t : Scheduler} (v : Services) (id : String) (solver : Option SolverStats)
        (browser : Chromium) (listed : Time)
        → chromium_slots v ≡ chromium_pool
        → OfSize solver
        → reserve v id solver browser listed s ≡ ok t
        → Step s t
    end_job :
        {s t : Scheduler} (id : String)
        → contains id s.active ≡ true
        → release id s ≡ some t
        → Step s t
    end_refresh :
        {s t : Scheduler} (now : Time) (id : String)
        → contains id s.active ≡ true
        → finish now id s ≡ some t
        → Step s t
    leave_solver : (s : Scheduler) (id : String) → Step s (done_with_solver id s)
    leave_chromium : (s : Scheduler) (id : String) → Step s (done_with_chromium id s)
    -- Every other method writes only these maps.
    remember :
        (s : Scheduler) (holds : Assoc Hold) (backlog : Assoc Bool) (finished : Assoc Time)
        → Step s (record s { held = holds; backlog = backlog; finished = finished })

  pub data Reach (s : Scheduler) : Scheduler → Type 0 where
    here : Reach s s
    next : {t u : Scheduler} → Reach s t → Step t u → Reach s u

  pub record IsBounded (s : Scheduler) : Type 0 where
    pub sound : IsSound s
    pub same_capacity : s.capacity ≡ workers
    pub few_solving : length s.solving ≤ solver_slots
    pub few_rendering : length s.rendering ≤ chromium_pool

  new-IsBounded : IsBounded (new workers)
  unfolding new contains
  new-IsBounded = record {
    sound = record {
      counted = refl;
      room = omega arith;
      active_distinct = tt;
      solving_distinct = tt;
      rendering_distinct = tt;
      solving_active = λ id h. h;
      rendering_active = λ id h. h;
    };
    same_capacity = refl;
    few_solving = omega arith;
    few_rendering = omega arith;
  }

  solving-room :
      (solver : Option SolverStats) (id : String) (s : Scheduler)
      → OfSize solver
      → solver_refuses solver s ≡ false
      → length s.solving ≤ solver_slots
      → length (add_solving solver id s.solving) ≤ solver_slots
  unfolding solver_free
  solving-room none id s z r h = h
  solving-room (some v) id s z r h = ground (arith, length-add-le id s.solving)

  rendering-room :
      (b : Bool) (n : ℕ) (id : String) (ids : KeySet)
      → (b ≡ true → length ids < n)
      → length ids ≤ n
      → length (if b then add id ids else ids) ≤ n
  rendering-room true n id ids room h = omega (arith, length-add-le id ids, room refl)
  rendering-room false n id ids room h = h

  release-IsBounded :
      (id : String) (s t : Scheduler)
      → IsBounded s
      → contains id s.active ≡ true
      → release id s ≡ some t
      → IsBounded t
  unfolding release
  release-IsBounded id s t b h r =
      let (t', e, _, sound) = release-IsSound id s b.sound h in
      let same : t' ≡ t = cc (e, r) in
      record {
        sound = subst IsSound same sound;
        same_capacity = ground arith;
        few_solving = ground (arith, length-remove-le id s.solving);
        few_rendering = ground (arith, length-remove-le id s.rendering);
      }

  left-solver :
      (id : String) (s : Scheduler)
      → IsSound s
      → IsSound (record s { solving = remove id s.solving })
  left-solver id s i = record {
    counted = i.counted;
    room = i.room;
    active_distinct = i.active_distinct;
    solving_distinct = remove-IsDistinct id s.solving i.solving_distinct;
    rendering_distinct = i.rendering_distinct;
    solving_active = Within-remove id s.solving s.active i.solving_active;
    rendering_active = i.rendering_active;
  }

  left-chromium :
      (id : String) (s : Scheduler)
      → IsSound s
      → IsSound (record s { rendering = remove id s.rendering })
  left-chromium id s i = record {
    counted = i.counted;
    room = i.room;
    active_distinct = i.active_distinct;
    rendering_distinct = remove-IsDistinct id s.rendering i.rendering_distinct;
    solving_distinct = i.solving_distinct;
    rendering_active = Within-remove id s.rendering s.active i.rendering_active;
    solving_active = i.solving_active;
  }

  Step-IsBounded : {s t : Scheduler} → Step s t → IsBounded s → IsBounded t
  unfolding finish done_with_solver done_with_chromium
  Step-IsBounded {s} {t} (start v id solver browser listed z w r) b =
      let a = (reserve-Admitted v id solver browser listed s).at t r in
      record {
        sound = Admitted-IsSound a b.sound;
        same_capacity = rw a.result b.same_capacity;
        few_solving = rw a.result (solving-room solver id s w a.solver_had_room b.few_solving);
        few_rendering = rw a.result (
            rendering-room a.rendering chromium_pool id s.rendering
              (λ e. rw (← z) (a.rendering_room e)) b.few_rendering);
      }
  Step-IsBounded {s} {t} (end_job id h r) b = release-IsBounded id s t b h r
  Step-IsBounded {s} {t} (end_refresh now id h r) b =
      release-IsBounded id (record s { finished = insert id now s.finished }) t (ground arith) h r
  Step-IsBounded (leave_solver s id) b = record {
    sound = left-solver id s b.sound;
    same_capacity = b.same_capacity;
    few_solving = omega (arith, length-remove-le id s.solving);
    few_rendering = b.few_rendering;
  }
  Step-IsBounded (leave_chromium s id) b = record {
    sound = left-chromium id s b.sound;
    same_capacity = b.same_capacity;
    few_solving = b.few_solving;
    few_rendering = omega (arith, length-remove-le id s.rendering);
  }
  Step-IsBounded (remember s holds backlog finished) b = ground arith

  -- In every run from a new scheduler, over pools of fixed sizes, the jobs that are active are
  -- exactly as many as the tokens in the slot channel, no more than the workers, and those
  -- admitted to FlareSolverr or Chromium are active jobs and no more than the pool has slots.
  pub Reach-IsBounded : {s : Scheduler} → Reach (new workers) s → IsBounded s
  Reach-IsBounded here = new-IsBounded
  Reach-IsBounded (next r st) = Step-IsBounded st (Reach-IsBounded r)
