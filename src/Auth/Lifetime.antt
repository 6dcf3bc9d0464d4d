-- ===== src/Auth/Lifetime.antt =====
-- internal/auth/auth.go: how long a session lasts among the requests of other sessions.
use rss_workshop.Common.{
  ℕ, ◌+◌, ◌*◌, ◌≤◌, ◌<◌, ◌≡◌, refl, String, str_eq, false, Option, none, some, List, [], ◌∷◌, ltb,
  if◌then◌else◌, length, arith, Option-cases, Bool-cases, inl, inr, ◌∙◌, subst, ap, sym, ◌⊎◌,
}
use text.Mathlib.TextEquality.{eq_iff}
use rss_workshop.Common.Assoc.{Assoc, lookup, delete, lookup-delete}
use rss_workshop.Common.Result.{ok}
use rss_workshop.Model.Item.{Time}
use rss_workshop.Scheduler.Holds.{hour}
use rss_workshop.Auth.{
  Auth, Session, Secrets, max_sessions, throttle, password_ok, store_session, login, get, logout,
}
use rss_workshop.Auth.Keyed.{
  AllKeyed, lookup-AllKeyed, delete-AllKeyed, store_session-AllKeyed, lookup-store_session_other,
}
use rss_workshop.Auth.Sessions.{lookup-store_session}

-- A request of some browser: `Get` with its cookie, `Logout` with one, or a login with the token and
-- CSRF value that it would get.
pub data Request : Type 0 where
  visit : Time → Option String → Request
  leave : Time → String → Request
  enter : Secrets → Time → ℕ → (token csrf : String) → List ℕ → Request

unfoldable pub serve : Request → Auth → Auth
unfolding get logout login
serve (visit now cookie) a = (get now cookie a).1
serve (leave now cookie) a = logout now (some cookie) a
serve (enter k now order token csrf password) a = (login k now order token csrf password a).1

unfoldable pub serve_all : List Request → Auth → Auth
unfolding serve
serve_all [] a = a
serve_all (r ∷ rs) a = serve_all rs (serve r a)

-- Requests until the time `end` that are not a logout with `token` or a login that gets it, and of
-- which every login finds fewer than 32 sessions.
abbrev pub Spares : String → Time → Request → Auth → Type 0
Spares token end (visit now cookie) a = now ≤ end
Spares token end (leave now cookie) a = (now ≤ end) × (str_eq cookie token ≡ false)
Spares token end (enter k now order new csrf password) a =
    (now ≤ end) × (str_eq new token ≡ false) × (length a.sessions < max_sessions)

abbrev pub SparesAll : String → Time → List Request → Auth → Type 0
SparesAll token end [] a = Unit
SparesAll token end (r ∷ rs) a = Spares token end r a × SparesAll token end rs (serve r a)

-- The session is found by its token.
abbrev Lives : Session → Assoc Session → Type 0
Lives s m = (lookup s.token m ≡ some s) × AllKeyed m

lives : {s : Session} {m m' : Assoc Session} → m ≡ m' → Lives s m' → Lives s m
lives {s} e g = subst (Lives s) (sym e) g

delete-Lives :
    (s : Session) (c : String) (m : Assoc Session)
    → str_eq c s.token ≡ false
    → Lives s m
    → Lives s (delete c m)
delete-Lives s c m n (found, keyed) =
    (lookup-delete c s.token m ∙ rw n found, delete-AllKeyed c m keyed)

get-Lives :
    (s : Session) (now : Time) (cookie : Option String) (a : Auth)
    → now ≤ s.expires
    → Lives s a.sessions
    → Lives s (get now cookie a).1.sessions
unfolding get
get-Lives s now none a l g = g
get-Lives s now (some c) a l g = elim (Option-cases (lookup c a.sessions)) [
  | inl e ↦ lives (rw (get, e) refl) g
  | inr (t, e) ↦ elim (Bool-cases (ltb t.expires now)) [
    | inr live ↦ lives (rw (get, e, live) refl) g
    | inl over ↦ elim (Bool-cases (str_eq c s.token)) [
      | inr n ↦ lives (rw (get, e, over) refl) (delete-Lives s c a.sessions n g)
      | inl same ↦ absurd (ground (arith, eq_iff c s.token, g.0))
    ]
  ]
]

logout-Lives :
    (s : Session) (now : Time) (c : String) (a : Auth)
    → now ≤ s.expires
    → str_eq c s.token ≡ false
    → Lives s a.sessions
    → Lives s (logout now (some c) a).sessions
unfolding logout get
logout-Lives s now c a l n g = elim (Option-cases (lookup c a.sessions)) [
  | inl e ↦ lives (ground arith) g
  | inr (t, e) ↦
      let named : t.token ≡ c = lookup-AllKeyed c a.sessions t g.1 e in
      let other : str_eq t.token s.token ≡ false = rw named n in
      elim (Bool-cases (ltb t.expires now)) [
        | inl over ↦ lives (ground arith) (delete-Lives s c a.sessions n g)
        | inr live ↦ lives (ground arith) (delete-Lives s t.token a.sessions other g)
      ]
]

throttle-sessions : (now : Time) (a : Auth) → (throttle now a).1.sessions ≡ a.sessions
unfolding throttle
throttle-sessions now a = ground arith

store_session-Lives :
    (s t : Session) (now : Time) (order : ℕ) (a : Auth)
    → now ≤ s.expires
    → str_eq t.token s.token ≡ false
    → length a.sessions < max_sessions
    → Lives s a.sessions
    → Lives s (store_session now order t a).sessions
store_session-Lives s t now order a l n r (found, keyed) = (
  lookup-store_session_other now order t a s l n r found,
  store_session-AllKeyed now order t a keyed,
)

-- A login leaves the sessions, or opens one among those that it found.
login-sessions :
    (k : Secrets) (now : Time) (order : ℕ) (token csrf : String) (password : List ℕ) (a : Auth)
    → ((login k now order token csrf password a).1.sessions ≡ a.sessions)
      ⊎ ((login k now order token csrf password a).1.sessions
          ≡ (store_session now order
              (record { token = token; csrf = csrf; expires = now + 12 * hour })
              (throttle now a).1).sessions)
unfolding login
login-sessions k now order token csrf password a =
    let same = throttle-sessions now a in
    elim (Bool-cases (throttle now a).0) [
      | inl limited ↦ inl (ground arith)
      | inr e ↦ elim (Bool-cases (throttle now a).1.hashing) [
        | inl busy ↦ inl (ground arith)
        | inr e' ↦ elim (Bool-cases (password_ok k password)) [
          | inr wrong ↦ inl (ground arith)
          | inl right ↦ inr (ground arith)
        ]
      ]
    ]

login-Lives :
    (s : Session) (k : Secrets) (now : Time) (order : ℕ) (token csrf : String) (password : List ℕ)
    (a : Auth)
    → now ≤ s.expires
    → str_eq token s.token ≡ false
    → length a.sessions < max_sessions
    → Lives s a.sessions
    → Lives s (login k now order token csrf password a).1.sessions
login-Lives s k now order token csrf password a l n r g =
    let same = throttle-sessions now a in
    let room : length (throttle now a).1.sessions < max_sessions = rw same r in
    let t : Session = record { token = token; csrf = csrf; expires = now + 12 * hour } in
    elim (login-sessions k now order token csrf password a) [
      | inl e ↦ lives e g
      | inr e ↦
          lives e (store_session-Lives s t now order (throttle now a).1 l n room (lives same g))
    ]

serve-Lives :
    (s : Session) (r : Request) (a : Auth)
    → Spares s.token s.expires r a
    → Lives s a.sessions
    → Lives s (serve r a).sessions
unfolding serve
serve-Lives s (visit now cookie) a l g = get-Lives s now cookie a l g
serve-Lives s (leave now cookie) a (l, n) g = logout-Lives s now cookie a l n g
serve-Lives s (enter k now order new csrf password) a (l, n, r) g =
    login-Lives s k now order new csrf password a l n r g

serve_all-Lives :
    (s : Session) (rs : List Request) (a : Auth)
    → SparesAll s.token s.expires rs a
    → Lives s a.sessions
    → Lives s (serve_all rs a).sessions
unfolding serve_all
serve_all-Lives s [] a h g = g
serve_all-Lives s (r ∷ rs) a h g = serve_all-Lives s rs (serve r a) h.1 (serve-Lives s r a h.0 g)

login-opens :
    (k : Secrets) (now : Time) (order : ℕ) (token csrf : String) (password : List ℕ) (a : Auth)
    (s : Session)
    → (login k now order token csrf password a).0 ≡ ok s
    → ((login k now order token csrf password a).1.sessions
        ≡ (store_session now order s (throttle now a).1).sessions)
      × (s ≡ record { token = token; csrf = csrf; expires = now + 12 * hour })
unfolding login
login-opens k now order token csrf password a s h = elim (Bool-cases (throttle now a).0) [
  | inl limited ↦ absurd (ground arith)
  | inr e ↦ elim (Bool-cases (throttle now a).1.hashing) [
    | inl busy ↦ absurd (ground arith)
    | inr e' ↦ elim (Bool-cases (password_ok k password)) [
      | inr wrong ↦ absurd (ground arith)
      | inl right ↦ ground arith
    ]
  ]
]

get-Lives_found :
    (later : Time) (s : Session) (a : Auth)
    → lookup s.token a.sessions ≡ some s
    → (get later (some s.token) a).0 ≡ (if ltb s.expires later then none else some s)
unfolding get
get-Lives_found later s a h = ground arith

-- A login that succeeds, among sessions that all stand under their tokens, opens one that expires in
-- twelve hours. After any requests until then that are not a logout with its token or a login that
-- gets the same one, and of which every login finds fewer than 32 sessions, its cookie finds it
-- until it expires and no longer.
pub get-serve_all :
    (k : Secrets) (now later : Time) (order : ℕ) (token csrf : String) (password : List ℕ)
    (a : Auth) (s : Session) (rs : List Request)
    → (login k now order token csrf password a).0 ≡ ok s
    → AllKeyed a.sessions
    → SparesAll s.token s.expires rs (login k now order token csrf password a).1
    → (s.expires ≡ now + 12 * hour)
      × ((get later (some s.token) (serve_all rs (login k now order token csrf password a).1)).0
          ≡ (if ltb s.expires later then none else some s))
get-serve_all k now later order token csrf password a s rs h keyed free =
    let a' = (login k now order token csrf password a).1 in
    let b = (throttle now a).1 in
    let (opened, made) = login-opens k now order token csrf password a s h in
    let keyed' : AllKeyed b.sessions = rw (throttle-sessions now a) keyed in
    let here : Lives s a'.sessions =
      lives opened
        (lookup-store_session now order s b, store_session-AllKeyed now order s b keyed') in
    (
      ap (λ (t : Session). t.expires) made,
      get-Lives_found later s (serve_all rs a') (serve_all-Lives s rs a' free here).0,
    )
