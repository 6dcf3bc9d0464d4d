-- ===== src/Auth/Tests.antt =====
-- Runs of the login on one attempt.
use rss_workshop.Common.{
  ℕ, zero, suc, ◌+◌, ◌-◌, ◌*◌, ◌≤◌, ◌≡◌, true, false, none, some, List, [], ◌∷◌, ltb, if◌then◌else◌,
  arith, ◌<◌, refl, length,
}
use rss_workshop.Common.Assoc.{lookup, insert}
use rss_workshop.Common.Result.{ok}
use rss_workshop.Scheduler.Holds.{hour}
use rss_workshop.Auth.{Session, Secrets, Auth, max_attempts, max_sessions, login, get}
use rss_workshop.Auth.Throttle.{allowed, allowed-le}
use rss_workshop.Auth.Lifetime.{
  Request, visit, leave, enter, serve, serve_all, SparesAll, get-serve_all,
}

abbrev secrets : Secrets
secrets = record { peppered = false; hash_input = λ p. p; matches = λ p. true }

abbrev fresh : Auth
fresh = record { sessions = []; window = 0; attempts = 0; hashing = false }

abbrev session : Session
session = record { token = "t"; csrf = "c"; expires = 7 + 12 * hour }

abbrev repeat : ℕ → List ℕ
repeat zero = []
repeat (suc n) = 1 ∷ repeat n

allowed-le_example : allowed (1 ∷ 2 ∷ 3 ∷ []) fresh ≤ max_attempts - 0
allowed-le_example =
    allowed-le (1 ∷ 2 ∷ 3 ∷ []) fresh (omega arith, (omega arith, (omega arith, tt)))

login-fresh : (login secrets 7 0 "t" "c" [] fresh).0 ≡ ok session
unfolding login
login-fresh = ground arith

-- Another browser logs in and out meanwhile, and this one is used.
abbrev requests : List Request
requests = visit 8 none ∷ enter secrets 9 0 "u" "d" [] ∷ visit 10 (some "t") ∷ leave 11 "u" ∷ []

abbrev after_login : Auth
after_login = (login secrets 7 0 "t" "c" [] fresh).1

few_sessions : length (serve (visit 8 none) after_login).sessions < max_sessions
unfolding serve login insert
few_sessions = omega arith

requests-SparesAll : SparesAll "t" (7 + 12 * hour) requests after_login
requests-SparesAll =
    (omega arith, ((omega arith, refl, few_sessions), (omega arith, ((omega arith, refl), tt))))

get-serve_all_example :
    (7 + 12 * hour ≡ 7 + 12 * hour)
    × ((get 12 (some "t") (serve_all requests after_login)).0
        ≡ (if ltb (7 + 12 * hour) 12 then none else some session))
get-serve_all_example =
    get-serve_all secrets 7 12 0 "t" "c" [] fresh session requests login-fresh tt requests-SparesAll

abbrev logged_in : Auth
logged_in = record { sessions = ("t", session) ∷ []; window = 0; attempts = 1; hashing = false }

keyed : (s : Session) → lookup "t" logged_in.sessions ≡ some s → s.token ≡ "t"
unfolding lookup
keyed s h = ground arith
