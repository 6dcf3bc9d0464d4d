-- ===== src/Auth.antt =====
-- internal/auth/auth.go: the single administrator's logins and sessions. bcrypt and the keyed hash
-- are other libraries' and are fields of `Secrets`; tokens come from store.ID and are arguments.
mod Tests
pub mod Throttle
pub mod Sessions
pub mod Keyed
pub mod Lifetime
use rss_workshop.Common.{
  ℕ, zero, suc, ◌+◌, ◌-◌, ◌*◌, ◌%◌, ◌<◌, String, str_eq, Bool, true, false, not, ◌&&◌, ◌||◌, Option,
  none, some, List, [], ◌∷◌, ltb, leb, if◌then◌else◌, length,
}
use rss_workshop.Common.Assoc.{Assoc, lookup, insert, delete}
use rss_workshop.Common.Result.{Result, ok, err}
use rss_workshop.Model.Item.{Time}
use rss_workshop.Scheduler.Holds.{minute, hour}

pub record Session : Type 0 where
  pub token : String
  pub csrf : String
  pub expires : Time

-- A password is its bytes. `peppered` is whether there is a pepper; `hash_input` hashes a password
-- with it, and `matches` is bcrypt's comparison with the stored hash.
pub record Secrets : Type 0 where
  pub peppered : Bool
  pub hash_input : List ℕ → List ℕ
  pub matches : List ℕ → Bool

-- `hashing` is whether the slot of the channel is taken.
pub record Auth : Type 0 where
  pub sessions : Assoc Session
  pub window : Time
  pub attempts : ℕ
  pub hashing : Bool

pub data LoginError : Type 0 where
  too_many busy incorrect : LoginError

abbrev pub max_attempts : ℕ
max_attempts = 10

abbrev pub max_sessions : ℕ
max_sessions = 32

-- The first locked section of `Login`: whether the attempt is refused.
unfoldable pub throttle : Time → Auth → Bool × Auth
throttle now a =
    let start : Auth =
      if ltb (a.window + minute) now then record a { window = now; attempts = 0 } else a in
    (ltb max_attempts (start.attempts + 1), record start { attempts = start.attempts + 1 })

-- `passwordInput` and the comparison; bcrypt reads 72 bytes.
unfoldable pub password_ok : Secrets → List ℕ → Bool
password_ok k password =
    if not k.peppered && ltb 72 (length password)
    then false
    else k.matches (if k.peppered then k.hash_input password else password)

-- The loop that drops the expired sessions.
unfoldable pub purge : Time → Assoc Session → Assoc Session
purge now [] = []
purge now ((k, s) ∷ m) = let rest = purge now m in if ltb s.expires now then rest else (k, s) ∷ rest

-- Go's map order is arbitrary: the session at the place `n` is the first that `range` visits.
unfoldable pub delete_at : ℕ → Assoc Session → Assoc Session
delete_at n [] = []
delete_at zero (e ∷ m) = m
delete_at (suc n) (e ∷ m) = e ∷ delete_at n m

-- The second locked section of `Login`; `order` is where the map's iteration starts.
unfoldable pub store_session : Time → ℕ → Session → Auth → Auth
unfolding purge delete_at
store_session now order s a =
    let kept = purge now a.sessions in
    let room =
      if leb max_sessions (length kept) then delete_at (order % length kept) kept else kept in
    record a { sessions = insert s.token s room }

-- `Login`, of which nothing else runs between its two locked sections.
unfoldable pub login :
    Secrets → Time → ℕ → (token csrf : String) → List ℕ → Auth → Result LoginError Session × Auth
unfolding throttle password_ok store_session
login k now order token csrf password a =
    let (limited, a') = throttle now a in
    let s : Session = record { token = token; csrf = csrf; expires = now + 12 * hour } in
    if limited
    then (err too_many, a')
    else if a'.hashing
    then (err busy, a')
    else if password_ok k password
    then (ok s, store_session now order s a')
    else (err incorrect, a')

-- `Get` for the value of the cookie, `none` without one.
unfoldable pub get : Time → Option String → Auth → Option Session × Auth
get now none a = (none, a)
get now (some token) a = elim (lookup token a.sessions) [
  | none ↦ (none, a)
  | some s ↦
      if ltb s.expires now
      then (none, record a { sessions = delete token a.sessions })
      else (some s, a)
]

-- `Logout`
unfoldable pub logout : Time → Option String → Auth → Auth
unfolding get
logout now cookie a =
    let (found, a') = get now cookie a in
    elim found [ none ↦ a' | some s ↦ record a' { sessions = delete s.token a'.sessions } ]

unfoldable pub check_csrf : Session → String → Bool
check_csrf s token = not (str_eq token "") && str_eq s.csrf token
