-- ===== src/Solver.antt =====
-- internal/flaresolverr/client.go: what Fetch answers and how long it holds its slot. The address
-- policy, JSON and the transport are other code: a `Call` is what they answered during one Fetch.
pub mod Slots
pub mod Hold
mod Tests
use rss_workshop.Common.{
  ℕ, suc, ◌+◌, ◌-◌, ◌*◌, ◌/◌, min, max, String, str_eq, Bool, true, false, not, ◌&&◌, ◌||◌, Option,
  none, some, List, [], ◌∷◌, ◌==◌, leb, ltb, if◌then◌else◌, length,
}
use rss_workshop.Common.Int.{ℤ, pos, negsuc}
use rss_workshop.Model.Text.{Text, contains_text, trim_space}
use rss_workshop.Model.Item.{Time}
use rss_workshop.Model.Quiet.{second}

abbrev pub max_body : ℕ
max_body = 4194304

abbrev pub max_response_body : ℕ
max_response_body = 6 * max_body + 1048576

abbrev pub millisecond : ℕ
millisecond = 1000000

abbrev pub grace : Time
grace = 2 * second

-- The fixed messages of `serviceFailure`.
pub data ServiceFailure : Type 0 where
  captcha service_timeout browser_failed could_not_fetch : ServiceFailure

-- How a context ended.
pub data ContextEnd : Type 0 where
  canceled deadline_exceeded : ContextEnd

-- `http_error` is a fetch.HTTPError, and `service` an error of the service with a status other than
-- 200, or in a reply.
pub data FetchError : Type 0 where
  client_closed slot_timeout no_time_left bad_service_url too_large_response : FetchError
  invalid_url denied invalid_final_url denied_final_url : String → FetchError
  dns_failed connection_refused unreachable connect_failed connect_timeout : FetchError
  reply_timeout connection_closed context_canceled : FetchError
  not_api incomplete_solution empty_page too_large_page : FetchError
  not_flaresolverr : ℕ → FetchError
  service : Option ℕ → ServiceFailure → FetchError
  http_error : (status retry_after : ℕ) → FetchError

-- `waitFailure`
abbrev pub wait_failure : ContextEnd → FetchError
wait_failure deadline_exceeded = slot_timeout
wait_failure canceled = context_canceled

-- What `errors.As` and `errors.Is` find in the error of a request, and the end of its context.
pub record TransportError : Type 0 where
  pub ended : Option ContextEnd
  pub timeout : Bool
  pub dns : Bool
  pub refused : Bool
  pub no_route : Bool

abbrev pub timed_out : TransportError → Bool
timed_out e = elim e.ended [ some end ↦ true | none ↦ e.timeout ]

-- The switch of `requestFailure`.
unfoldable pub request_cause : TransportError → Bool → FetchError
request_cause e connected =
    if connected && timed_out e
    then reply_timeout
    else if connected
    then connection_closed
    else if e.dns
    then dns_failed
    else if e.refused
    then connection_refused
    else if timed_out e
    then connect_timeout
    else if e.no_route
    then unreachable
    else connect_failed

unfoldable pub request_failure : TransportError → Bool → FetchError
unfolding request_cause
request_failure e connected = elim e.ended [
  | some canceled ↦ context_canceled
  | _ ↦ request_cause e connected
]

-- `solution` of a reply; a header's value comes with what `retryAfter` parses in it.
pub record Solution : Type 0 where
  pub url : String
  pub status : ℕ
  pub response : Option Text
  pub headers : List (String × String)

pub record Reply : Type 0 where
  pub status : String
  pub message : Text
  pub solution : Option Solution

-- How the request went: no response, a body that broke off, or a response with the length of what
-- was read and its JSON, if it is such.
pub data Exchange : Type 0 where
  no_response : (connected : Bool) → TransportError → Exchange
  broken_body : TransportError → Exchange
  response : (status size : ℕ) → Option Reply → Exchange

-- `late` is the context after the wait, and `remaining` the time until its deadline.
pub record Call : Type 0 where
  pub closed : Bool
  pub wait : Option ContextEnd
  pub late : Option ContextEnd
  pub remaining : ℤ
  pub exchange : Exchange

-- `fetch.Result` with the error.
pub record Page : Type 0 where
  pub url : String
  pub status : ℕ
  pub retry_after : ℕ
  pub body : Text
  pub failure : Option FetchError

abbrev pub failed : FetchError → Page
failed e = record { url = ""; status = 0; retry_after = 0; body = []; failure = some e }

-- `maxTimeout`, from Go's division that rounds to 0.
unfoldable pub max_timeout : (timeout : Time) (remaining : ℤ) → ℕ
max_timeout timeout (negsuc n) = 0
max_timeout timeout (pos n) = min timeout (n - min grace (n / 10)) / millisecond

-- What a Fetch answers, and the time for which its slot stays taken, if it took one.
pub data Ending : Type 0 where
  without_slot : Page → Ending
  with_slot : Page → (hold : ℕ) → Ending

-- Go's strconv.ParseInt and http.ParseTime with time.Until, strings.ToLower and EqualFold.
pub record TextLibrary : Type 0 where
  pub parse_int : String → Option ℤ
  pub until_time : String → Option ℤ
  pub to_lower : Text → Text
  pub equal_fold : String → String → Bool

abbrev pub at_least_zero : ℤ → ℕ
at_least_zero (pos n) = n
at_least_zero (negsuc n) = 0

module _ (texts : TextLibrary) where
  unfoldable pub service_failure : Text → ServiceFailure
  unfolding contains_text
  service_failure raw =
      let message = texts.to_lower raw in
      if ltb 4096 (length raw)
      then could_not_fetch
      else if contains_text message (b'c' ∷ b'a' ∷ b'p' ∷ b't' ∷ b'c' ∷ b'h' ∷ b'a' ∷ [])
      then captcha
      else if contains_text message (b't' ∷ b'i' ∷ b'm' ∷ b'e' ∷ b'o' ∷ b'u' ∷ b't' ∷ [])
          || contains_text message
              (b't' ∷ b'i' ∷ b'm' ∷ b'e' ∷ b'd' ∷ b' ' ∷ b'o' ∷ b'u' ∷ b't' ∷ [])
      then service_timeout
      else if contains_text message (b'b' ∷ b'r' ∷ b'o' ∷ b'w' ∷ b's' ∷ b'e' ∷ b'r' ∷ [])
          || contains_text message (b'c' ∷ b'h' ∷ b'r' ∷ b'o' ∷ b'm' ∷ b'e' ∷ [])
          || contains_text message (
              b's' ∷ b'e' ∷ b's' ∷ b's' ∷ b'i' ∷ b'o' ∷ b'n' ∷ b' ' ∷ b'n' ∷ b'o' ∷ b't' ∷ b' '
              ∷ b'c' ∷ b'r' ∷ b'e' ∷ b'a' ∷ b't' ∷ b'e' ∷ b'd' ∷ [])
      then browser_failed
      else could_not_fetch

  -- `retryAfter`
  unfoldable pub retry_after : String → ℕ
  retry_after raw = elim (texts.parse_int raw) [
    | some n ↦ min (at_least_zero n) 86400 * second
    | none ↦ elim (texts.until_time raw) [
      | some d ↦ min (at_least_zero d) (86400 * second)
      | none ↦ 0
    ]
  ]

  -- The loop over the headers, in the order of the iteration.
  unfoldable pub retry_after_of : List (String × String) → ℕ → ℕ
  unfolding retry_after
  retry_after_of [] found = found
  retry_after_of ((name, value) ∷ headers) found =
      retry_after_of headers
        (if texts.equal_fold name "Retry-After" then retry_after value else found)

  module _ (validate_url check_url : String → Option String) (timeout : Time) where
    -- The body of a solution.
    unfoldable pub page_body : Page → Option Text → Page
    unfolding trim_space
    page_body out none = record out { failure = some empty_page }
    page_body out (some t) =
        if leb (length (trim_space t)) 0
        then record out { failure = some empty_page }
        else if ltb max_body (length t)
        then record out { failure = some too_large_page }
        else record out { body = t }

    -- From the final address on.
    unfoldable pub solved : Solution → Page
    unfolding page_body retry_after_of
    solved s = elim (validate_url s.url) [
      | some text ↦ failed (invalid_final_url text)
      | none ↦ elim (check_url s.url) [
        | some text ↦ failed (denied_final_url text)
        | none ↦
            let after = retry_after_of s.headers 0 in
            let out : Page = record {
              url = s.url;
              status = s.status;
              retry_after = after;
              body = [];
              failure = none;
            } in
            if s.status == 200
            then page_body out s.response
            else record out { failure = some (http_error s.status after) }
      ]
    ]

    unfoldable pub complete_solution : Reply → Option Solution
    complete_solution r = elim r.solution [
      | none ↦ none
      | some s ↦
          if not (str_eq r.status "ok") || str_eq s.url "" || ltb s.status 100 || ltb 599 s.status
          then none
          else some s
    ]

    -- A complete response.
    unfoldable pub replied : ℕ → Option Reply → Page
    unfolding service_failure solved complete_solution
    replied status none =
        if status == 200
        then failed (not_flaresolverr status)
        else if status == 404
        then failed not_api
        else failed (not_flaresolverr status)
    replied status (some r) =
        if status == 200
        then (if str_eq r.status "error"
            then failed (service none (service_failure r.message))
            else elim (complete_solution r) [
              | none ↦ failed incomplete_solution
              | some s ↦ solved s
            ])
        else if str_eq r.status "error"
        then failed (service (some status) (service_failure r.message))
        else if status == 404
        then failed not_api
        else failed (not_flaresolverr status)

    -- `holdFor` is set before the request and reset by a complete response.
    unfoldable pub exchanged : (hold : ℕ) → Exchange → Ending
    unfolding replied request_failure
    exchanged hold (no_response connected e) =
        with_slot (failed (request_failure e connected)) (if connected then hold else 0)
    exchanged hold (broken_body e) = with_slot (failed (request_failure e true)) hold
    exchanged hold (response status size reply) =
        if ltb max_response_body size
        then with_slot (failed too_large_response) hold
        else with_slot (replied status reply) 0

    -- After the slot is taken.
    unfoldable pub with_budget : Call → Ending
    unfolding exchanged max_timeout
    with_budget c = elim c.late [
      | some end ↦ with_slot (failed (wait_failure end)) 0
      | none ↦
          let ms = max_timeout timeout c.remaining in
          if leb ms 0
          then with_slot (failed no_time_left) 0
          else exchanged (ms * millisecond + grace) c.exchange
    ]

    unfoldable pub waited : Call → Ending
    unfolding with_budget
    waited c = elim c.wait [
      | some end ↦ without_slot (failed (wait_failure end))
      | none ↦ with_budget c
    ]

    unfoldable pub fetch : String → Call → Ending
    unfolding waited
    fetch raw c =
        if c.closed then without_slot (failed client_closed) else elim (validate_url raw) [
          | some text ↦ without_slot (failed (invalid_url text))
          | none ↦ elim (check_url raw) [
            | some text ↦ without_slot (failed (denied text))
            | none ↦ waited c
          ]
        ]
