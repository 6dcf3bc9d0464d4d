-- ===== src/Scheduler/Extract/Attempts.antt =====
-- Which pages a refresh fetches, and with which validators.
use rss_workshop.Common.{
  ◌≡◌, refl, ap, ap₂, ◌∙◌, String, str_eq, not, none, some, inl, inr, Bool-cases, Bool, true, false,
  ◌&&◌, ◌||◌, List, [], ◌∷◌, ◌++◌, ◌==◌, if◌then◌else◌, arith,
}
use rss_workshop.Model.Feed.{Feed, Recipe}
use rss_workshop.Scheduler.Slots.{Scheduler}
use rss_workshop.Scheduler.Backlog.{draining}
use rss_workshop.Scheduler.Extract.{
  Page, Attempt, Pages, Extraction, attempt, solve, render_page, extract, falls_back, is_no_items,
}

abbrev pub modes : List Attempt → List String
modes [] = []
modes (a ∷ rest) = a.mode ∷ modes rest

abbrev pub in_solver : Feed → Bool
in_solver f = str_eq f.recipe.mode "flaresolverr"

abbrev pub in_browser : Feed → Bool
in_browser f = not (in_solver f) && str_eq f.recipe.mode "browser"

abbrev pub bare : Extraction → Extraction
bare x = record x { attempts = [] }

module _ (pages : Pages) where
  -- Whether a static page was fetched, is not a 304, and its extraction finds no items.
  abbrev pub finds_nothing : Recipe → Page → Bool
  finds_nothing recipe (r, some e) = false
  finds_nothing recipe (r, none) = not (r.status == 304) && is_no_items (pages.run r recipe).1

  falls_back-attempt :
      (f : Feed) (page : Page)
      → falls_back pages f (attempt pages "static" f.recipe page)
        ≡ (str_eq f.recipe.mode "auto" && finds_nothing f.recipe page)
  unfolding attempt
  falls_back-attempt f (r, some e) = ground arith
  falls_back-attempt f (r, none) = ground arith

  -- The static page of an extraction, as `extract` asks for it.
  abbrev pub static_page : Feed → Bool → Scheduler → Page
  static_page f preview s =
      let fresh = preview || draining f s in
      pages.static (str_eq f.recipe.type "feed") f.url (if fresh then "" else f.etag)
        (if fresh then "" else f.last_modified)

  -- The Auto mode renders a page in which it found nothing.
  abbrev pub goes_back : Feed → Bool → Scheduler → Bool
  goes_back f preview s =
      not (in_solver f)
      && not (in_browser f)
      && str_eq f.recipe.mode "auto"
      && finds_nothing f.recipe (static_page f preview s)

  -- The page that an extraction fetches last.
  abbrev pub last_page : Feed → Bool → Scheduler → Page
  last_page f preview s =
      if in_solver f
      then solve pages f.url
      else if in_browser f || goes_back f preview s
      then render_page pages f.url f.recipe.wait_selector f.recipe.settle_ms
      else static_page f preview s

  attempt-modes :
      (mode : String) (recipe : Recipe) (page : Page)
      → modes (attempt pages mode recipe page).attempts ≡ mode ∷ []
  unfolding attempt
  attempt-modes mode recipe page = ground arith

  bare-attempt :
      (mode : String) (recipe : Recipe) (page : Page)
      → bare (attempt pages mode recipe page) ≡ bare (attempt pages "" recipe page)
  unfolding attempt
  bare-attempt mode recipe page = ground arith

  modes-append : (xs ys : List Attempt) → modes (xs ++ ys) ≡ modes xs ++ modes ys
  modes-append [] ys = refl
  modes-append (x ∷ xs) ys = ap (◌∷◌ x.mode) (modes-append xs ys)

  both-modes :
      (recipe : Recipe) (first second : Page)
      → modes (
          (attempt pages "static" recipe first).attempts
          ++ (attempt pages "browser" recipe second).attempts)
        ≡ "static" ∷ "browser" ∷ []
  both-modes recipe first second =
      modes-append (attempt pages "static" recipe first).attempts _
      ∙ ap₂ (λ (u v : List String). u ++ v) (attempt-modes "static" recipe first)
          (attempt-modes "browser" recipe second)

  -- The pages with other fetchers where an extraction uses none.
  abbrev pub with_others : Pages → Feed → Bool → Scheduler → Pages
  with_others others f preview s = record pages {
    static = if in_solver f || in_browser f then others.static else pages.static;
    render = if in_browser f || goes_back f preview s then pages.render else others.render;
    solver = if in_solver f then pages.solver else others.solver;
  }

  -- A feed in FlareSolverr or Chromium mode is fetched there and nowhere else. Every other one is
  -- fetched as a static page, and then in the browser too exactly if its mode is Auto, the static
  -- page came with no error and is no 304, and its extraction found no items. The result is that of
  -- the last page fetched, and no other fetcher of the server bears on it.
  pub last_page-extract :
      (f : Feed) (preview : Bool) (s : Scheduler) (others : Pages)
      → let out = extract pages f preview s in
        (modes out.attempts ≡ (
          if in_solver f
          then "flaresolverr" ∷ []
          else if in_browser f
          then "browser" ∷ []
          else if goes_back f preview s
          then "static" ∷ "browser" ∷ []
          else "static" ∷ []))
        × (bare out ≡ bare (attempt pages "" f.recipe (last_page f preview s)))
        × (out ≡ extract (with_others others f preview s) f preview s)
  unfolding extract attempt solve render_page
  last_page-extract f preview s others =
      let page = static_page f preview s in
      let drawn = render_page pages f.url f.recipe.wait_selector f.recipe.settle_ms in
      elim (Bool-cases (str_eq f.recipe.mode "flaresolverr")) [
        | inl h ↦ rw h (ground arith, ground arith, refl)
        | inr h ↦ elim (Bool-cases (str_eq f.recipe.mode "browser")) [
          | inl k ↦ rw (h, k) (ground arith, ground arith, refl)
          | inr k ↦ elim (Bool-cases (str_eq f.recipe.mode "auto" && finds_nothing f.recipe page)) [
            | inl g ↦
                let t = falls_back-attempt f page ∙ g in
                rw (h, k, t, g)
                  (both-modes f.recipe page drawn, bare-attempt "browser" f.recipe drawn, refl)
            | inr g ↦
                let t = falls_back-attempt f page ∙ g in
                rw (h, k, t, g)
                  (attempt-modes "static" f.recipe page, bare-attempt "static" f.recipe page, refl)
          ]
        ]
      ]

  -- A preview, and a refresh that drains a backlog of articles, never sends the stored validators:
  -- what it fetches and extracts is the same whatever they are.
  pub extract_without_validators :
      (f : Feed) (preview : Bool) (s : Scheduler) (etag modified : String)
      → (preview || draining f s) ≡ true
      → extract pages (record f { etag = etag; last_modified = modified }) preview s
        ≡ extract pages f preview s
  unfolding extract
  extract_without_validators f preview s etag modified h = ground arith
