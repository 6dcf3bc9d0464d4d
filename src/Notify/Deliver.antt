-- ===== src/Notify/Deliver.antt =====
-- internal/notify/notify.go: `deliver`, the answers of `post`, and `classify`. The transport is not
-- in the repository: what it answers to a request is an argument. Log lines and the time between
-- attempts are left out.
pub mod Attempts
use rss_workshop.Common.{
  ℕ, zero, suc, ◌+◌, ◌-◌, Bool, true, false, not, ◌&&◌, ◌||◌, Option, none, some, leb, ltb, ◌==◌,
  if◌then◌else◌,
}

pub data Reason : Type 0 where
  status redirect timeout dns refused unreachable tls closed canceled connection request : Reason

-- `Failure`; the status is 0 without an answer.
pub record Failure : Type 0 where
  pub code : ℕ
  pub reason : Reason
  pub retry : Bool

-- ctx.Err(): nil, context.Canceled or context.DeadlineExceeded.
pub data Context : Type 0 where
  live cancelled expired : Context

-- The tests of a transport error that `classify` makes, in its order; `certificate` is any of the
-- errors of crypto/tls and crypto/x509.
pub record TransportError : Type 0 where
  pub is_dns : Bool
  pub is_refused : Bool
  pub is_certificate : Bool
  pub is_timeout : Bool
  pub is_unreachable : Bool
  pub is_closed : Bool

abbrev is_cancelled : Context → Bool
is_cancelled cancelled = true
is_cancelled _ = false

abbrev pub is_over : Context → Bool
is_over live = false
is_over _ = true

abbrev passing : Reason → Failure
passing r = record { code = 0; reason = r; retry = true }

abbrev lasting : Reason → Failure
lasting r = record { code = 0; reason = r; retry = false }

unfoldable pub classify : Context → TransportError → Failure
classify ctx e =
    if is_cancelled ctx
    then lasting canceled
    else if e.is_dns
    then passing dns
    else if e.is_refused
    then passing refused
    else if e.is_certificate
    then lasting tls
    else if is_over ctx || e.is_timeout
    then passing timeout
    else if e.is_unreachable
    then passing unreachable
    else if e.is_closed
    then passing closed
    else passing connection

-- The switch over the status code.
unfoldable pub of_status : ℕ → Option Failure
of_status c =
    if leb 200 c && ltb c 300
    then none
    else if leb 300 c && ltb c 400
    then some (record { code = c; reason = redirect; retry = false })
    else some (record { code = c; reason = status; retry = c == 408 || c == 429 || leb 500 c })

-- What becomes of a request: it cannot be built, it fails on the way, or a status answers it.
pub data Response : Type 0 where
  unbuilt : Response
  broken : TransportError → Response
  answered : ℕ → Response

-- `post` after the request's headers.
unfoldable pub post : Context → Response → Option Failure
unfolding classify of_status
post ctx unbuilt = some (lasting request)
post ctx (broken e) = some (classify ctx e)
post ctx (answered c) = of_status c

-- ctx.Err() as an error for `classify`: context.DeadlineExceeded is a timeout.
abbrev pub context_error : TransportError
context_error = record {
  is_dns = false;
  is_refused = false;
  is_certificate = false;
  is_timeout = true;
  is_unreachable = false;
  is_closed = false;
}

-- One attempt: the response, and the context when it came and when the wait after it ended.
pub record Try : Type 0 where
  pub response : Response
  pub then_context : Context
  pub wait_context : Context

abbrev pub result_of : Try → Option Failure
result_of t = post t.then_context t.response

-- The loop of `deliver` from an attempt, with `left` more allowed: the failure, and the number of
-- the last attempt.
unfoldable pub attempts_from : (ℕ → Try) → (attempt left : ℕ) → Option Failure × ℕ
unfolding post classify
attempts_from tries attempt zero = (result_of (tries attempt), attempt)
attempts_from tries attempt (suc left) =
    let rest = attempts_from tries (suc attempt) left in
    let t = tries attempt in
    elim (result_of t) [
      | none ↦ (none, attempt)
      | some e ↦
          if not e.retry || is_over t.then_context
          then (some e, attempt)
          else if is_over t.wait_context
          then (some (classify t.wait_context context_error), attempt)
          else rest
    ]

pub record Counters : Type 0 where
  pub sent : ℕ
  pub failed : ℕ

abbrev pub counted : Option Failure → Counters → Counters
counted none n = record n { sent = n.sent + 1 }
counted (some e) n = record n { failed = n.failed + 1 }

-- `deliver`: the failure, the last attempt and the counters.
unfoldable pub deliver : (ℕ → Try) → ℕ → Counters → (Option Failure × ℕ) × Counters
unfolding attempts_from
deliver tries attempts n = let out = attempts_from tries 1 (attempts - 1) in (out, counted out.0 n)
