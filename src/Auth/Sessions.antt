-- ===== src/Auth/Sessions.antt =====
-- What holds of the sessions.
use rss_workshop.Common.{
  ℕ, zero, suc, ◌+◌, ◌%◌, ◌≤◌, ◌<◌, ◌≡◌, String, none, some, [], ◌∷◌, leb, if◌then◌else◌, length,
  arith, Option-cases, inl, inr,
}
use rss_workshop.Common.Assoc.{
  Assoc, lookup, lookup-insert_self, lookup-delete_self, length-insert-le,
}
use rss_workshop.Model.Item.{Time}
use rss_workshop.Auth.{Auth, Session, max_sessions, purge, delete_at, store_session, get, logout}

pub length-purge-le : (now : Time) (m : Assoc Session) → length (purge now m) ≤ length m
unfolding purge
length-purge-le now [] = omega arith
length-purge-le now ((k, s) ∷ m) = ground (arith, length-purge-le now m)

length-delete_at :
    (n : ℕ) (m : Assoc Session) → n < length m → length (delete_at n m) + 1 ≡ length m
unfolding delete_at
length-delete_at n [] h = absurd (omega arith)
length-delete_at zero (e ∷ m) h = omega arith
length-delete_at (suc n) (e ∷ m) h = omega (arith, length-delete_at n m (omega arith))

room-lt :
    (order : ℕ) (kept : Assoc Session)
    → length kept ≤ max_sessions
    → length (if leb max_sessions (length kept) then delete_at (order % length kept) kept else kept)
      < max_sessions
room-lt order [] h = omega arith
room-lt order (e ∷ m) h =
    ground (arith, length-delete_at (order % length (e ∷ m)) (e ∷ m) (omega arith))

-- A login never leaves more than 32 sessions, whichever session it drops to make room.
pub store_session-le :
    (now : Time) (order : ℕ) (s : Session) (a : Auth)
    → length a.sessions ≤ max_sessions
    → length (store_session now order s a).sessions ≤ max_sessions
unfolding store_session
store_session-le now order s a h =
    let kept = purge now a.sessions in
    let room =
      if leb max_sessions (length kept) then delete_at (order % length kept) kept else kept in
    omega (
      arith,
      length-insert-le s.token s room,
      length-purge-le now a.sessions,
      room-lt order kept (omega (arith, length-purge-le now a.sessions)),
    )

pub lookup-store_session :
    (now : Time) (order : ℕ) (s : Session) (a : Auth)
    → lookup s.token (store_session now order s a).sessions ≡ some s
unfolding store_session
lookup-store_session now order s a = lookup-insert_self s.token s _

-- After a logout the cookie finds no session, at any time.
pub get-logout :
    (now later : Time) (token : String) (a : Auth)
    → ((s : Session) → lookup token a.sessions ≡ some s → s.token ≡ token)
    → (get later (some token) (logout now (some token) a)).0 ≡ none
unfolding logout get
get-logout now later token a h = elim (Option-cases (lookup token a.sessions)) [
  | inl e ↦ ground arith
  | inr (s, e) ↦ ground (arith, h s e, lookup-delete_self token a.sessions)
]
