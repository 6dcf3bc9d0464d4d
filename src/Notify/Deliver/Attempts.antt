-- ===== src/Notify/Deliver/Attempts.antt =====
-- How often a message is posted.
use rss_workshop.Common.{
  ℕ, zero, suc, ◌+◌, ◌-◌, ◌≤◌, ◌≡◌, refl, sym, subst, ap, ◌∙◌, max, Bool, true, false, not, ◌||◌,
  Option, none, some, if◌then◌else◌, arith, Bool-cases, Option-cases, inl, inr,
}
use rss_workshop.Notify.Deliver.{
  Failure, canceled, timeout, Context, live, cancelled, expired, classify, context_error, Try,
  result_of, is_over, attempts_from, Counters, deliver,
}

abbrev pub is_none : Option Failure → Bool
is_none none = true
is_none (some e) = false

-- The failure of a wait for the next attempt that its context cuts short.
abbrev pub interruption : Context → Failure
interruption cancelled = record { code = 0; reason = canceled; retry = false }
interruption _ = record { code = 0; reason = timeout; retry = true }

-- The attempts from `first` on with `left` more allowed, the last of them, and the outcome. Each
-- way to stop has its reason, and only a failure that may pass is followed by another attempt.
pub data Tried (tries : ℕ → Try) : (first left last : ℕ) → Option Failure → Type 0 where
  taken : (k left : ℕ) → result_of (tries k) ≡ none → Tried tries k left k none
  for_good :
      (k left : ℕ) (e : Failure)
      → result_of (tries k) ≡ some e
      → e.retry ≡ false
      → Tried tries k left k (some e)
  stopped :
      (k left : ℕ) (e : Failure)
      → result_of (tries k) ≡ some e
      → is_over (tries k).then_context ≡ true
      → Tried tries k left k (some e)
  used_up : (k : ℕ) (e : Failure) → result_of (tries k) ≡ some e → Tried tries k 0 k (some e)
  cut_short :
      (k left : ℕ) (e : Failure)
      → result_of (tries k) ≡ some e
      → e.retry ≡ true
      → is_over (tries k).then_context ≡ false
      → is_over (tries k).wait_context ≡ true
      → Tried tries k (suc left) k (some (interruption (tries k).wait_context))
  again :
      (k left last : ℕ) (e : Failure) (out : Option Failure)
      → result_of (tries k) ≡ some e
      → e.retry ≡ true
      → is_over (tries k).then_context ≡ false
      → is_over (tries k).wait_context ≡ false
      → Tried tries (suc k) left last out
      → Tried tries k (suc left) last out

classify-context_error : (c : Context) → classify c context_error ≡ interruption c
unfolding classify
classify-context_error live = refl
classify-context_error cancelled = refl
classify-context_error expired = refl

no_more :
    (tries : ℕ → Try) (k left : ℕ) (e : Failure)
    → result_of (tries k) ≡ some e
    → (not e.retry || is_over (tries k).then_context) ≡ true
    → Tried tries k left k (some e)
no_more tries k left e f g = elim (Bool-cases e.retry) [
  | inr r ↦ for_good k left e f r
  | inl r ↦ stopped k left e f (ground arith)
]

cut_short-attempts_from :
    (tries : ℕ → Try) (k left : ℕ) (e : Failure)
    → result_of (tries k) ≡ some e
    → (not e.retry || is_over (tries k).then_context) ≡ false
    → is_over (tries k).wait_context ≡ true
    → attempts_from tries k (suc left) ≡ (some (interruption (tries k).wait_context), k)
unfolding attempts_from
cut_short-attempts_from tries k left e f g w =
    let found : attempts_from tries k (suc left)
        ≡ (some (classify (tries k).wait_context context_error), k) =
      rw (f, attempts_from, g, w) refl in
    found ∙ ap (λ c. (some c, k)) (classify-context_error (tries k).wait_context)

attempts_from-Tried :
    (tries : ℕ → Try) (k left : ℕ)
    → Tried tries k left (attempts_from tries k left).1 (attempts_from tries k left).0
      × ((attempts_from tries k left).1 ≤ k + left)
unfolding attempts_from
attempts_from-Tried tries k zero = elim (Option-cases (result_of (tries k))) [
  | inl n ↦ rw (attempts_from, n) (taken k 0 n, omega arith)
  | inr (e, f) ↦ rw (attempts_from, f) (used_up k e f, omega arith)
]
attempts_from-Tried tries k (suc left) = elim (Option-cases (result_of (tries k))) [
  | inl n ↦ rw (n, attempts_from) (taken k (suc left) n, omega arith)
  | inr (e, f) ↦ elim (Bool-cases (not e.retry || is_over (tries k).then_context)) [
    | inl g ↦ rw (f, attempts_from, g) (no_more tries k (suc left) e f g, omega arith)
    | inr g ↦
        let may_pass : e.retry ≡ true = ground arith in
        let goes_on : is_over (tries k).then_context ≡ false = ground arith in
        elim (Bool-cases (is_over (tries k).wait_context)) [
          | inl w ↦
              subst
                (λ (out : Option Failure × ℕ).
                  Tried tries k (suc left) out.1 out.0 × (out.1 ≤ k + suc left))
                (sym (cut_short-attempts_from tries k left e f g w))
                (cut_short k left e f may_pass goes_on w, omega arith)
          | inr w ↦
              let rest = attempts_from-Tried tries (suc k) left in
              rw (f, attempts_from, g, w)
                (again k left _ e _ f may_pass goes_on w rest.0, omega (arith, rest.1))
        ]
  ]
]

-- A message is posted at least once and at most as often as allowed. After a post that succeeded,
-- that failed for good, or after which the context is over, there is no other. After a failure that
-- may pass there is, unless the attempts are used up or the wait for the next is cut short, which
-- is the failure then. The message counts once, as sent exactly when its last post succeeded.
pub deliver-Tried :
    (tries : ℕ → Try) (attempts : ℕ) (n : Counters)
    → let out = deliver tries attempts n in
      Tried tries 1 (attempts - 1) out.0.1 out.0.0
      × (out.0.1 ≤ max attempts 1)
      × (out.1.sent + out.1.failed ≡ n.sent + n.failed + 1)
      × (out.1.sent ≡ (if is_none out.0.0 then n.sent + 1 else n.sent))
unfolding deliver
deliver-Tried tries attempts n =
    let r = attempts_from-Tried tries 1 (attempts - 1) in
    (r.0, omega (arith, r.1), ground arith, ground arith)
