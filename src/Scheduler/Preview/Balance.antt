-- ===== src/Scheduler/Preview/Balance.antt =====
-- The jobs that an operator waits for give back all that they took.
use rss_workshop.Common.{
  ◌≡◌, refl, ◌∙◌, ◌⊎◌, inl, inr, String, str_eq, Bool, true, false, not, ◌||◌, Option, some,
  if◌then◌else◌, Option-cases,
}
use text.Mathlib.TextPositions.{eq_refl}
use rss_workshop.Common.Assoc.{KeySet, remove, contains-remove, remove_absent}
use rss_workshop.Common.Result.{Result, ok, err}
use rss_workshop.Model.Feed.{Feed, Recipe}
use rss_workshop.Scheduler.Slots.{
  Scheduler, Services, no_chromium, share_chromium, uses_solver, renders_pages, articles_use_solver,
  articles_use_chromium, reserve, release, done_with_solver, done_with_chromium,
}
use rss_workshop.Scheduler.Slots.Invariant.{IsSound, release-reserve}
use rss_workshop.Scheduler.Extract.{Failure, Pages, extract, is_nil}
use rss_workshop.Scheduler.Preview.{give_back_early, Sample, preview, snapshot_error, snapshot}

Result-cases : {E A : Type 0} (m : Result E A) → ((e : E) × (m ≡ err e)) ⊎ ((a : A) × (m ≡ ok a))
Result-cases (err e) = inl (e, refl)
Result-cases (ok a) = inr (a, refl)

remove_twice : (id : String) (ids : KeySet) → remove id (remove id ids) ≡ remove id ids
remove_twice id ids =
    remove_absent id (remove id ids) (rw (contains-remove id id ids, eq_refl) refl)

release-solver : (id : String) (s : Scheduler) → release id (done_with_solver id s) ≡ release id s
unfolding release done_with_solver
release-solver id s = rw (remove_twice id s.solving) refl

release-chromium :
    (id : String) (s : Scheduler) → release id (done_with_chromium id s) ≡ release id s
unfolding release done_with_chromium
release-chromium id s = rw (remove_twice id s.rendering) refl

release-if :
    (b : Bool) (id : String) (s t : Scheduler)
    → release id t ≡ release id s
    → release id (if b then t else s) ≡ release id s
release-if true id s t h = h
release-if false id s t h = refl

-- Giving admissions back early changes nothing of what the release leaves.
release-give_back_early :
    (id : String) (f : Feed) (e : Option Failure) (s : Scheduler)
    → release id (give_back_early id f e s) ≡ release id s
unfolding give_back_early
release-give_back_early id f e s =
    let done = not (is_nil e) || not (articles_use_solver f) in
    let t = if done then done_with_solver id s else s in
    release-if (not (is_nil e) || not (articles_use_chromium f)) id t (done_with_chromium id t)
      (release-chromium id t)
    ∙ release-if done id s (done_with_solver id s) (release-solver id s)

preview-balanced :
    (v : Services) (pages : Pages) (w : Sample) (id : String) (f : Feed) (s : Scheduler)
    → IsSound s
    → (preview v pages w id f s).1 ≡ some s
unfolding preview
preview-balanced v pages w id f s i =
    let solver = uses_solver v f.recipe.mode in
    let browser = if renders_pages f then share_chromium else no_chromium in
    elim (Result-cases (reserve v id solver browser 0 s)) [
      | inl (e, h) ↦ rw (h, preview) refl
      | inr (t, h) ↦
          rw (h, preview)
            (release-give_back_early id f (extract pages f true t).failure t
              ∙ release-reserve v id solver browser 0 s t i h)
    ]

snapshot-balanced :
    (v : Services) (pages : Pages) (id url : String) (r : Recipe) (s : Scheduler)
    → IsSound s
    → (snapshot v pages id url r s).1 ≡ some s
unfolding snapshot
snapshot-balanced v pages id url r s i =
    let solver = uses_solver v r.mode in
    let browser = if str_eq r.mode "browser" then share_chromium else no_chromium in
    elim (Option-cases (snapshot_error pages url r)) [
      | inr (e, h) ↦ rw (h, snapshot) refl
      | inl n ↦ elim (Result-cases (reserve v id solver browser 0 s)) [
        | inl (e, h) ↦ rw (n, snapshot, h) refl
        | inr (t, h) ↦ rw (n, snapshot, h) (release-reserve v id solver browser 0 s t i h)
      ]
    ]

-- A preview and a page load leave the scheduler as they found it, whether they are refused, fail
-- or succeed: no slot, FlareSolverr or Chromium admission stays behind, and no release blocks.
pub preview-snapshot :
    (v : Services) (pages : Pages) (w : Sample) (id url : String) (f : Feed) (r : Recipe)
    (s : Scheduler)
    → IsSound s
    → ((preview v pages w id f s).1 ≡ some s) × ((snapshot v pages id url r s).1 ≡ some s)
preview-snapshot v pages w id url f r s i =
    (preview-balanced v pages w id f s i, snapshot-balanced v pages id url r s i)
