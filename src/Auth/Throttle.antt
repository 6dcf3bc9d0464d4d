-- ===== src/Auth/Throttle.antt =====
-- How many passwords are checked.
use rss_workshop.Common.{
  ℕ, suc, ◌+◌, ◌-◌, ◌≤◌, ◌<◌, ◌≡◌, ◌≢◌, false, List, [], ◌∷◌, ltb, if◌then◌else◌, length, arith,
  String,
}
use rss_workshop.Common.Result.{ok}
use rss_workshop.Model.Item.{Time}
use rss_workshop.Scheduler.Holds.{minute}
use rss_workshop.Auth.{Auth, Session, Secrets, max_attempts, throttle, login}

-- The attempts at the given times that are not refused.
unfoldable pub allowed : List Time → Auth → ℕ
allowed [] a = 0
allowed (now ∷ ts) a =
    let (limited, a') = throttle now a in if limited then allowed ts a' else suc (allowed ts a')

abbrev pub AllBefore : Time → List Time → Type 0
AllBefore t [] = Unit
AllBefore t (now ∷ ts) = (now ≤ t) × AllBefore t ts

throttle_within :
    (now : Time) (a : Auth)
    → now ≤ a.window + minute
    → throttle now a ≡ (ltb max_attempts (a.attempts + 1), record a { attempts = a.attempts + 1 })
unfolding throttle
throttle_within now a h = ground arith

-- Within the minute of a window, whatever the number and the order of the attempts, no more
-- passwords are checked than are left of the ten.
pub allowed-le :
    (ts : List Time) (a : Auth)
    → AllBefore (a.window + minute) ts
    → allowed ts a ≤ max_attempts - a.attempts
unfolding allowed
allowed-le [] a h = omega arith
allowed-le (now ∷ ts) a h =
    let a' : Auth = record a { attempts = a.attempts + 1 } in
    ground (arith, throttle_within now a h.0, allowed-le ts a' h.1)

-- A password longer than bcrypt reads never logs in where the hash came from outside: no prefix of
-- it is compared.
pub login_long :
    (k : Secrets) (now : Time) (order : ℕ) (token csrf : String) (password : List ℕ) (a : Auth)
    (s : Session)
    → k.peppered ≡ false
    → 72 < length password
    → (login k now order token csrf password a).0 ≢ ok s
unfolding login
login_long k now order token csrf password a s p h e = ground arith
