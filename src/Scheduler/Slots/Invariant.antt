-- ===== src/Scheduler/Slots/Invariant.antt =====
-- What holds of the slots between two steps, whatever jobs start, end and give back.
use rss_workshop.Common.{
  ◌+◌, ◌-◌, ◌≤◌, ◌<◌, ◌≡◌, refl, String, Bool, true, false, not, ◌&&◌, ◌||◌, ◌≢◌, Option, none,
  some, ltb, ◌==◌, if◌then◌else◌, length, arith,
}
use rss_workshop.Common.Assoc.{
  KeySet, contains, add, remove, contains-add, contains-remove, IsDistinct, add-IsDistinct,
  remove-IsDistinct, length-add, length-remove, remove-add, remove_absent,
}
use rss_workshop.Common.Result.{ok, Returns, Returns-ok, Returns-guard}
use rss_workshop.Model.Item.{Time}
use rss_workshop.Scheduler.Slots.{
  Scheduler, SolverStats, Services, Chromium, busy, solver_busy, chromium_slots, needs, wants,
  finished_since, solver_refuses, add_solving, reserve, release,
}

abbrev pub Within : KeySet → KeySet → Type 0
Within ids all = (id : String) → contains id ids ≡ true → contains id all ≡ true

pub record IsSound (s : Scheduler) : Type 0 where
  pub counted : length s.active ≡ s.slots
  pub room : s.slots ≤ s.capacity
  pub active_distinct : IsDistinct s.active
  pub solving_distinct : IsDistinct s.solving
  pub rendering_distinct : IsDistinct s.rendering
  pub solving_active : Within s.solving s.active
  pub rendering_active : Within s.rendering s.active

-- What a successful `reserve` has seen and done.
pub record Admitted (v : Services) (id : String) (solver : Option SolverStats) (browser : Chromium)
    (s t : Scheduler) : Type 0 where
  pub was_idle : contains id s.active ≡ false
  pub had_slot : s.slots ≢ s.capacity
  pub solver_had_room : solver_refuses solver s ≡ false
  pub rendering : Bool
  pub rendering_room : rendering ≡ true → length s.rendering < chromium_slots v
  pub rendering_wanted : rendering ≡ true → wants browser ≡ true
  pub rendering_needed : needs browser ≡ true → 0 < chromium_slots v → rendering ≡ true
  pub result : t ≡ record s {
    slots = s.slots + 1;
    active = add id s.active;
    solving = add_solving solver id s.solving;
    rendering = if rendering then add id s.rendering else s.rendering;
  }

pub reserve-Admitted :
    (v : Services) (id : String) (solver : Option SolverStats) (browser : Chromium) (listed : Time)
    (s : Scheduler)
    → Returns (Admitted v id solver browser s) (reserve v id solver browser listed s)
unfolding reserve
reserve-Admitted v id solver browser listed s =
    Returns-guard (not (contains id s.active || s.slots == s.capacity)) busy _ λ p.
      Returns-guard (not (finished_since id listed s)) busy _ λ q.
        Returns-guard (not (solver_refuses solver s)) solver_busy _ λ r.
          let slots = chromium_slots v in
          let rendering = wants browser && ltb (length s.rendering) slots in
          Returns-guard (not (needs browser && ltb 0 slots && not rendering)) busy _ λ n.
            Returns-ok
              (record s {
                slots = s.slots + 1;
                active = add id s.active;
                solving = add_solving solver id s.solving;
                rendering = if rendering then add id s.rendering else s.rendering;
              })
              (record {
                was_idle = ground arith;
                had_slot = ground arith;
                solver_had_room = ground arith;
                rendering = rendering;
                rendering_room = ground arith;
                rendering_wanted = ground arith;
                rendering_needed = ground arith;
                result = refl;
              })

Within-add : (id : String) (ids all : KeySet) → Within ids all → Within ids (add id all)
Within-add id ids all w j h = ground (arith, contains-add id j all, w j)

Within-add_both :
    (id : String) (ids all : KeySet) → Within ids all → Within (add id ids) (add id all)
Within-add_both id ids all w j h = ground (arith, contains-add id j all, contains-add id j ids, w j)

pub Within-remove : (id : String) (ids all : KeySet) → Within ids all → Within (remove id ids) all
Within-remove id ids all w j h = ground (arith, contains-remove id j ids, w j)

Within-remove_both :
    (id : String) (ids all : KeySet) → Within ids all → Within (remove id ids) (remove id all)
Within-remove_both id ids all w j h =
    ground (arith, contains-remove id j ids, contains-remove id j all, w j)

add_solving-Within :
    (solver : Option SolverStats) (id : String) (ids all : KeySet)
    → Within ids all
    → Within (add_solving solver id ids) (add id all)
add_solving-Within none id ids all w = Within-add id ids all w
add_solving-Within (some v) id ids all w = Within-add_both id ids all w

add_solving-IsDistinct :
    (solver : Option SolverStats) (id : String) (ids : KeySet)
    → IsDistinct ids
    → IsDistinct (add_solving solver id ids)
add_solving-IsDistinct none id ids d = d
add_solving-IsDistinct (some v) id ids d = add-IsDistinct id ids d

if-Within :
    (b : Bool) (id : String) (ids all : KeySet)
    → Within ids all
    → Within (if b then add id ids else ids) (add id all)
if-Within true id ids all w = Within-add_both id ids all w
if-Within false id ids all w = Within-add id ids all w

if-IsDistinct :
    (b : Bool) (id : String) (ids : KeySet)
    → IsDistinct ids
    → IsDistinct (if b then add id ids else ids)
if-IsDistinct true id ids d = add-IsDistinct id ids d
if-IsDistinct false id ids d = d

-- Admitting a job keeps the invariant.
pub Admitted-IsSound :
    {v : Services} {id : String} {solver : Option SolverStats} {browser : Chromium}
    {s t : Scheduler}
    → Admitted v id solver browser s t
    → IsSound s
    → IsSound t
Admitted-IsSound {v} {id} {solver} {browser} {s} {t} a i = rw a.result (record {
  counted = omega (arith, length-add id s.active a.was_idle, i.counted);
  room = omega (arith, i.room, a.had_slot);
  active_distinct = add-IsDistinct id s.active i.active_distinct;
  solving_distinct = add_solving-IsDistinct solver id s.solving i.solving_distinct;
  rendering_distinct = if-IsDistinct a.rendering id s.rendering i.rendering_distinct;
  solving_active = add_solving-Within solver id s.solving s.active i.solving_active;
  rendering_active = if-Within a.rendering id s.rendering s.active i.rendering_active;
})

-- Ending a job that was admitted never blocks, frees exactly one slot and keeps the invariant.
pub release-IsSound :
    (id : String) (s : Scheduler)
    → IsSound s
    → contains id s.active ≡ true
    → (t : Scheduler) × (release id s ≡ some t) × (t.slots + 1 ≡ s.slots) × IsSound t
unfolding release
release-IsSound id s i h =
    let shorter = length-remove id s.active i.active_distinct h in
    (
      record s {
        active = remove id s.active;
        solving = remove id s.solving;
        rendering = remove id s.rendering;
        slots = s.slots - 1;
      },
      ground (arith, i.counted),
      omega (arith, i.counted),
      record {
        counted = omega (arith, i.counted);
        room = omega (arith, i.room);
        active_distinct = remove-IsDistinct id s.active i.active_distinct;
        solving_distinct = remove-IsDistinct id s.solving i.solving_distinct;
        rendering_distinct = remove-IsDistinct id s.rendering i.rendering_distinct;
        solving_active = Within-remove_both id s.solving s.active i.solving_active;
        rendering_active = Within-remove_both id s.rendering s.active i.rendering_active;
      },
    )

add_solving-remove :
    (solver : Option SolverStats) (id : String) (ids : KeySet)
    → contains id ids ≡ false
    → remove id (add_solving solver id ids) ≡ ids
add_solving-remove none id ids h = remove_absent id ids h
add_solving-remove (some v) id ids h = remove-add id ids h

if-remove :
    (b : Bool) (id : String) (ids : KeySet)
    → contains id ids ≡ false
    → remove id (if b then add id ids else ids) ≡ ids
if-remove true id ids h = remove-add id ids h
if-remove false id ids h = remove_absent id ids h

outside :
    (id : String) (ids all : KeySet)
    → Within ids all
    → contains id all ≡ false
    → contains id ids ≡ false
outside id ids all w h = ground (arith, w id)

-- A job that is admitted and then ends leaves the scheduler exactly as it was before: no slot and
-- no FlareSolverr or Chromium admission leaks.
pub release-reserve :
    (v : Services) (id : String) (solver : Option SolverStats) (browser : Chromium) (listed : Time)
    (s t : Scheduler)
    → IsSound s
    → reserve v id solver browser listed s ≡ ok t
    → release id t ≡ some s
unfolding release
release-reserve v id solver browser listed s t i h =
    let a = (reserve-Admitted v id solver browser listed s).at t h in
    let idle = a.was_idle in
    let p = remove-add id s.active idle in
    let q =
      add_solving-remove solver id s.solving
        (outside id s.solving s.active i.solving_active idle) in
    let r =
      if-remove a.rendering id s.rendering
        (outside id s.rendering s.active i.rendering_active idle) in
    rw (a.result, p, q, r) (ground arith)
