-- ===== src/Lib.antt =====
-- RSS Workshop: a server that turns web pages into feeds. This library models the parts of the Go
-- program under internal/ that decide something by themselves, and proves what they promise.
--
-- The parts and how they interact. The scheduler (internal/scheduler) reads the feeds of the
-- store once a second, admits a job for each due feed to shared slots, fetches and extracts the
-- feed's page in its fetch mode, fills in article bodies, and hands the result to the store. What
-- the store answers decides whether the feed is held, whether its next refresh drains a backlog of
-- articles, and which health events go to the notifier (internal/notify), which collects them into
-- messages. The extraction applies the feed's keyword rules merged with those of its library
-- filters (internal/filter). internal/auth is the login of the administrator.
--
-- The files, and the code each is about:
--   Common: tests on native numbers, lists, integers, association lists, results with errors and
--     the rules by which a postcondition of a do block is proved.
--   Model: internal/model. `Text` is the bytes or runes of a Go string whose characters matter; a
--     string that is only compared is a native string. A time is a number of nanoseconds since
--     Go's zero time. An item lacks two fields that only a preview shows. Model/Quiet has the quiet
--     thresholds (quiet.go).
--   Filter/Text, Filter/Compile, Filter/Match: internal/filter/text.go and filter.go, with the
--     memo of `subject` passed from call to call. Filter/Combine: combine.go. Filter/Meaning reads
--     the stored rules directly, as the specification of the compiled ones, and Filter/Limits says
--     which sets are to be accepted.
--   Store: internal/store, on SQLite. Store/Rows has the tables of schema.sql as a `Database` value.
--     Store/Complete is `CompleteWithDiagnostics`, Store/Merge its merge of a successful refresh,
--     Store/Library library.go, Store/Edit, Store/Bodies and Store/Pruning save.go and import.go,
--     Store/Options their errors, and Store/Switches the small writes of store.go. A transaction is
--     one function from a database to a new one or an error, and an error leaves the database.
--     Store/History has the step relation of all transactions in any order.
--   Scheduler/Slots: `reserve`, `release`, `finish` and the admissions; one call is one step, since
--     it runs with `mu` held. `finish` takes `mu` twice, for the end time and then in `release`:
--     Slots/Runs, the step relation of all such calls in any order, has it whole and in halves.
--   Scheduler/Holds: `hold`, `Held`, `Retry`, `released` and the forgetting of old entries.
--   Scheduler/Dispatch: `sortFeeds`, `tick` and `dispatch`, whose loop starts the due feeds.
--   Scheduler/Articles, Scheduler/Backlog: article.go and backlog.go.
--   Scheduler/Alerts: alerts.go.
--   Scheduler/Preview: `Preview` and `Snapshot`, the jobs that an operator waits for.
--   Scheduler/Extract, Scheduler/Refresh: `extract`, `solve`, `article` and `refresh` of
--     scheduler.go and article.go. What they read and what the store answers is a `World`.
--   Fetch/Headers: the request headers of a recipe, internal/fetch/fetch.go.
--   Solver: internal/flaresolverr/client.go; Solver/Slots has the step relation of its slots, where
--     the end of a hold and the freeing of its slot are two steps, since no lock is held.
--   Auth: internal/auth/auth.go. Notify: internal/notify/notify.go.
--   The Tests modules apply each result to a concrete input.
--
-- Bounds and fuel. `fold_orbit` follows a fold orbit for 8 steps, and an orbit of the Unicode table
-- has at most 4 members; `normalize` keeps a rune whose orbit is longer. `digits` writes at most 20
-- digits, and an int has at most 19. Go's ints are numbers or integers without a bound where
-- validation or the length of a list in memory keeps them far from 2^63; Model/Quiet states the
-- bound it needs.
--
-- Arguments of the model. Not code of the repository: html.Parse and unicode.SimpleFold
-- (`Libraries`), bcrypt and the keyed hash (`Secrets`), the transport of a notification (`Try`), the
-- exchange with FlareSolverr (`Call`) and its texts (`TextLibrary`).
-- Code of other packages that these parts call: the address checks of a solved page, the page
-- fetchers and the extraction (`Pages`), the store's answers and the clock of a refresh (`World`),
-- diagnostics.SafeText and `describe`. In the store: the SHA-256 of GUIDs and of the jitter,
-- `Validate` of a save, new ids and tokens.
--
-- Not modelled: the store's listings, upgrades and PostgreSQL dialect, failing queries, fetching
-- over HTTP, charsets, Chromium, the selectors and dates of the extraction, the feed output, the
-- web handlers and the configuration, most of which is SQL, HTTP, XML and calls of other libraries.
-- Neither are goroutines: a run of several jobs is a sequence of steps, and the workers that fetch
-- articles answer in the order of the queue.
pub mod Common
pub mod Model
pub mod Filter
pub mod Store
pub mod Fetch
pub mod Solver
pub mod Scheduler
pub mod Auth
pub mod Notify
