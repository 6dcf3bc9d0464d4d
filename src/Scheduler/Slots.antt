-- ===== src/Scheduler/Slots.antt =====
-- internal/scheduler/scheduler.go and article.go: the state of a `Scheduler`, and the admission of
-- jobs to its shared slots, to the FlareSolverr slots and to the Chromium pool. Each function runs
-- with `mu` held, so it is one step.
pub mod Invariant
pub mod Runs
use rss_workshop.Common.{
  ℕ, suc, ◌+◌, ◌-◌, min, max, String, str_eq, Bool, true, false, not, ◌&&◌, ◌||◌, Option, none,
  some, List, [], ◌∷◌, ltb, leb, ◌==◌, if◌then◌else◌, length,
}
use rss_workshop.Common.Assoc.{Assoc, lookup, insert, delete, KeySet, contains, add, remove}
use rss_workshop.Common.Result.{Result, ok, err, ◌>>=◌, ◌>>◌, guard}
use rss_workshop.Model.Item.{Time}
use rss_workshop.Model.Feed.{Feed, FullContent}

pub record Hold : Type 0 where
  pub until : Time
  pub failures : ℕ

-- `slots` is the number of tokens in the channel and `capacity` its size. `active`, `solving` and
-- `rendering` are maps to bool that only hold true.
pub record Scheduler : Type 0 where
  pub slots : ℕ
  pub capacity : ℕ
  pub active : KeySet
  pub solving : KeySet
  pub rendering : KeySet
  pub held : Assoc Hold
  pub backlog : Assoc Bool
  pub finished : Assoc Time

-- `New`
unfoldable pub new : ℕ → Scheduler
new workers = record {
  slots = 0;
  capacity = workers;
  active = [];
  solving = [];
  rendering = [];
  held = [];
  backlog = [];
  finished = [];
}

-- What `Solver.Stats` and `Solver.Cooling` report.
pub record SolverStats : Type 0 where
  pub active : ℕ
  pub capacity : ℕ
  pub cooling : ℕ

-- The configured services: the FlareSolverr client, if there is one, and the renderer's
-- `Capacity`, if it has that method.
pub record Services : Type 0 where
  pub solver : Option SolverStats
  pub renderer : Option ℕ

pub data Chromium : Type 0 where
  no_chromium share_chromium need_chromium : Chromium

pub data Refusal : Type 0 where
  busy solver_busy : Refusal

-- `usesSolver`, with the statistics of the solver that is used.
unfoldable pub uses_solver : Services → String → Option SolverStats
uses_solver v mode = if str_eq mode "flaresolverr" then v.solver else none

-- The tests of a feed's article settings.
abbrev renders_articles : Option FullContent → Bool
renders_articles none = false
renders_articles (some c) = not (str_eq c.selector "") && c.browser

unfoldable pub articles_use_solver : Feed → Bool
articles_use_solver f = str_eq f.recipe.mode "flaresolverr" && renders_articles f.recipe.full

unfoldable pub articles_use_chromium : Feed → Bool
articles_use_chromium f =
    not (str_eq f.recipe.mode "flaresolverr") && renders_articles f.recipe.full

unfoldable pub renders_pages : Feed → Bool
unfolding articles_use_chromium
renders_pages f = str_eq f.recipe.mode "browser" || articles_use_chromium f

unfoldable pub chromium_slots : Services → ℕ
chromium_slots v = elim v.renderer [ none ↦ 0 | some n ↦ n ]

unfoldable pub solver_free : SolverStats → Scheduler → Bool
solver_free v s = ltb (max v.active (length s.solving + v.cooling)) v.capacity

abbrev needs : Chromium → Bool
needs need_chromium = true
needs _ = false

abbrev wants : Chromium → Bool
wants no_chromium = false
wants _ = true

-- Whether the feed finished at or after the time its list was read; `listed` 0 is no list.
unfoldable pub finished_since : String → Time → Scheduler → Bool
finished_since id listed s = elim (lookup id s.finished) [
  | none ↦ false
  | some done ↦ not (listed == 0) && not (ltb done listed)
]

abbrev solver_refuses : Option SolverStats → Scheduler → Bool
solver_refuses none s = false
solver_refuses (some v) s = not (solver_free v s)

abbrev add_solving : Option SolverStats → String → KeySet → KeySet
add_solving none id ids = ids
add_solving (some v) id ids = add id ids

-- `reserve`. The solver is given when the job takes one of its slots.
unfoldable pub reserve :
    Services → String → Option SolverStats → Chromium → Time → Scheduler → Result Refusal Scheduler
unfolding finished_since solver_free chromium_slots
reserve v id solver browser listed s = do
  guard (not (contains id s.active || s.slots == s.capacity)) busy
  guard (not (finished_since id listed s)) busy
  guard (not (solver_refuses solver s)) solver_busy
  let slots = chromium_slots v
  let rendering = wants browser && ltb (length s.rendering) slots
  guard (not (needs browser && ltb 0 slots && not rendering)) busy
  ok (record s {
    slots = s.slots + 1;
    active = add id s.active;
    solving = add_solving solver id s.solving;
    rendering = if rendering then add id s.rendering else s.rendering;
  })

-- `release`; `none` is the receive from an empty channel, which would block for ever.
unfoldable pub release : String → Scheduler → Option Scheduler
release id s =
    if s.slots == 0
    then none
    else some (record s {
      active = remove id s.active;
      solving = remove id s.solving;
      rendering = remove id s.rendering;
      slots = s.slots - 1;
    })

-- `finish`, at the time `now`: it takes the lock for the end time and again in `release`, which are
-- two steps where others run in between.
unfoldable pub finish : Time → String → Scheduler → Option Scheduler
unfolding release
finish now id s = release id (record s { finished = insert id now s.finished })

unfoldable pub done_with_solver : String → Scheduler → Scheduler
done_with_solver id s = record s { solving = remove id s.solving }

unfoldable pub done_with_chromium : String → Scheduler → Scheduler
done_with_chromium id s = record s { rendering = remove id s.rendering }
