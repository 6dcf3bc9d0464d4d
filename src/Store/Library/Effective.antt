-- ===== src/Store/Library/Effective.antt =====
-- Rules that merge and compile, and the saves that check it.
use rss_workshop.Store.Options.{SaveOptions}
use rss_workshop.Common.{◌≡◌, refl, ap, subst, String, Option, none, some, List, [], ◌∷◌}
use rss_workshop.Common.Assoc.{Assoc}
use rss_workshop.Common.Result.{Result, ok, err, Returns, Returns-ok, Returns-bind}
use rss_workshop.Model.Feed.{Feed, Recipe}
use rss_workshop.Model.Filters.{FilterSet}
use rss_workshop.Filter.Text.{Libraries}
use rss_workshop.Filter.Combine.{combine}
use rss_workshop.Filter.Compile.{CompileError, Matcher, compile}
use rss_workshop.Store.Rows.{FilterRow}
use rss_workshop.Store.Library.{
  library_rules, with_rules, effective, merged_or_error, merged_recipe, effective_recipe,
}

module _ (lib : Libraries) where
  abbrev pub Compiles : Option Recipe → List FilterSet → Type 0
  Compiles none shared = Unit
  Compiles (some r) shared = (m : Matcher) × (compile lib (with_rules r shared).filters ≡ ok m)

  -- The links name stored filters, whose rules and the recipe's own compile as one set. A recipe
  -- that cannot be read has no rules.
  pub record IsRefreshable (filters : Assoc FilterRow) (ids : List String) (recipe : Option Recipe)
      : Type 0 where
    pub shared : List FilterSet
    pub reads : library_rules filters ids ≡ ok shared
    pub compiles : Compiles recipe shared

  -- What `effective` returns.
  pub record IsMerged (filters : Assoc FilterRow) (f : Feed) (out : Recipe × Matcher) : Type 0 where
    pub shared : List FilterSet
    pub reads : library_rules filters f.filter_ids ≡ ok shared
    pub merged : out.0 ≡ with_rules f.recipe shared
    pub compiles : compile lib out.0.filters ≡ ok out.1

  compile_ok :
      (compiled : Result CompileError Matcher) (m : Matcher)
      → merged_or_error lib compiled ≡ ok m
      → compiled ≡ ok m
  compile_ok (ok n) m e = cc
  compile_ok (err failure) m e = cc

  pub effective-IsMerged :
      (filters : Assoc FilterRow) (f : Feed) (options : SaveOptions)
      → Returns (IsMerged filters f) (effective lib filters f options)
  unfolding effective
  effective-IsMerged filters f options =
      Returns-bind (library_rules filters f.filter_ids) _ λ shared reads.
        Returns-bind (merged_or_error lib (compile lib (with_rules f.recipe shared).filters)) _
          λ m e. Returns-bind _ _ λ passed _.
            Returns-ok (with_rules f.recipe shared, m)
              (record {
                shared = shared;
                reads = reads;
                merged = refl;
                compiles = compile_ok _ m e;
              })

  pub merged-IsRefreshable :
      {filters : Assoc FilterRow} {f : Feed} {out : Recipe × Matcher}
      → IsMerged filters f out
      → IsRefreshable filters f.filter_ids (some f.recipe)
  merged-IsRefreshable {f} {out} h = record {
    shared = h.shared;
    reads = h.reads;
    compiles = (out.1, subst (λ r. compile lib r.filters ≡ ok out.1) h.merged h.compiles);
  }

merged_recipe-with_rules :
    (filters : Assoc FilterRow) (ids : List String) (r : Recipe) (shared : List FilterSet)
    → library_rules filters ids ≡ ok shared
    → merged_recipe filters ids r ≡ ok (with_rules r shared)
unfolding merged_recipe library_rules combine
merged_recipe-with_rules filters [] r shared h =
    ap (λ sets. ok (with_rules r sets)) (let same : [] ≡ shared = cc in same)
merged_recipe-with_rules filters (id ∷ ids) r shared h = rw h refl

-- The library filters that were read give the effective recipe.
pub effective_recipe-with_rules :
    (filters : Assoc FilterRow) (f : Feed) (shared : List FilterSet)
    → library_rules filters f.filter_ids ≡ ok shared
    → effective_recipe filters f ≡ ok (with_rules f.recipe shared)
unfolding effective_recipe
effective_recipe-with_rules filters f shared h =
    merged_recipe-with_rules filters f.filter_ids f.recipe shared h
