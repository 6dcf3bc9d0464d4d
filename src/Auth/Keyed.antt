-- ===== src/Auth/Keyed.antt =====
-- internal/auth/auth.go: sessions stand under their tokens, and other logins leave them there.
use rss_workshop.Common.{
  ℕ, zero, suc, ◌%◌, ◌≤◌, ◌<◌, ◌≡◌, refl, String, str_eq, false, some, [], ◌∷◌, leb, length, arith,
  Bool-cases, inl, inr, ◌∙◌,
}
use text.Mathlib.TextEquality.{eq_iff}
use rss_workshop.Common.Assoc.{Assoc, lookup, insert, delete, lookup-insert_ne}
use rss_workshop.Model.Item.{Time}
use rss_workshop.Auth.{Auth, Session, max_sessions, purge, delete_at, store_session}
use rss_workshop.Auth.Sessions.{length-purge-le}

-- Every session is stored under its token.
abbrev pub AllKeyed : Assoc Session → Type 0
AllKeyed [] = Unit
AllKeyed ((k, s) ∷ m) = (s.token ≡ k) × AllKeyed m

pub lookup-AllKeyed :
    (c : String) (m : Assoc Session) (s : Session) → AllKeyed m → lookup c m ≡ some s → s.token ≡ c
unfolding lookup
lookup-AllKeyed c [] s g h = ground arith
lookup-AllKeyed c ((k, t) ∷ m) s g h = ground (arith, eq_iff k c, lookup-AllKeyed c m s)

purge-AllKeyed : (now : Time) (m : Assoc Session) → AllKeyed m → AllKeyed (purge now m)
unfolding purge
purge-AllKeyed now [] g = tt
purge-AllKeyed now ((k, s) ∷ m) g = ground (arith, purge-AllKeyed now m)

delete_at-AllKeyed : (n : ℕ) (m : Assoc Session) → AllKeyed m → AllKeyed (delete_at n m)
unfolding delete_at
delete_at-AllKeyed n [] g = tt
delete_at-AllKeyed zero (e ∷ m) g = g.1
delete_at-AllKeyed (suc n) (e ∷ m) g = (g.0, delete_at-AllKeyed n m g.1)

pub delete-AllKeyed : (k : String) (m : Assoc Session) → AllKeyed m → AllKeyed (delete k m)
unfolding delete
delete-AllKeyed k [] g = tt
delete-AllKeyed k ((j, s) ∷ m) g = ground (arith, delete-AllKeyed k m)

insert-AllKeyed : (s : Session) (m : Assoc Session) → AllKeyed m → AllKeyed (insert s.token s m)
unfolding insert
insert-AllKeyed s [] g = (refl, tt)
insert-AllKeyed s ((j, t) ∷ m) g = ground (arith, insert-AllKeyed s m)

pub store_session-AllKeyed :
    (now : Time) (order : ℕ) (s : Session) (a : Auth)
    → AllKeyed a.sessions
    → AllKeyed (store_session now order s a).sessions
unfolding store_session
store_session-AllKeyed now order s a g =
    let kept = purge now a.sessions in
    let keyed = purge-AllKeyed now a.sessions g in
    elim (Bool-cases (leb max_sessions (length kept))) [
      | inl e ↦ rw e (
          insert-AllKeyed s (delete_at (order % length kept) kept)
            (delete_at-AllKeyed (order % length kept) kept keyed))
      | inr e ↦ rw e (insert-AllKeyed s kept keyed)
    ]

lookup-purge :
    (now : Time) (c : String) (m : Assoc Session) (s : Session)
    → now ≤ s.expires
    → lookup c m ≡ some s
    → lookup c (purge now m) ≡ some s
unfolding lookup purge
lookup-purge now c [] s l h = h
lookup-purge now c ((k, t) ∷ m) s l h = ground (arith, lookup-purge now c m s)

pub lookup-store_session_other :
    (now : Time) (order : ℕ) (t : Session) (a : Auth) (s : Session)
    → now ≤ s.expires
    → str_eq t.token s.token ≡ false
    → length a.sessions < max_sessions
    → lookup s.token a.sessions ≡ some s
    → lookup s.token (store_session now order t a).sessions ≡ some s
unfolding store_session
lookup-store_session_other now order t a s l n r h =
    let kept = purge now a.sessions in
    let few : leb max_sessions (length kept) ≡ false =
      ground (arith, length-purge-le now a.sessions) in
    rw few (lookup-insert_ne t.token s.token t kept n ∙ lookup-purge now s.token a.sessions s l h)
