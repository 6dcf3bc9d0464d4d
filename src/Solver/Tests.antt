-- ===== src/Solver/Tests.antt =====
-- A request that breaks off after the connection opened, and a client with one slot.
use rss_workshop.Common.{◌*◌, ◌≤◌, true, false, none, some, arith}
use rss_workshop.Common.Int.{pos}
use rss_workshop.Model.Quiet.{second}
use rss_workshop.Solver.{Call, TextLibrary, deadline_exceeded, broken_body}
use rss_workshop.Solver.Slots.{
  Client, new_client, take_slot, end_request, end_hold, Reach, new, step, taken, ended, hold_over,
  IsCounted, Reach-IsCounted,
}

abbrev texts : TextLibrary
texts = record {
  parse_int = λ t. none;
  until_time = λ t. none;
  to_lower = λ t. t;
  equal_fold = λ a b. false;
}

abbrev broken : Call
broken = record {
  closed = false;
  wait = none;
  late = none;
  remaining = pos (10 * second);
  exchange = broken_body (record {
    ended = some deadline_exceeded;
    timeout = true;
    dns = false;
    refused = false;
    no_route = false;
  });
}

-- One request that ends with a hold, which is over before its slot is free.
abbrev busy_client : Client
busy_client = take_slot (new_client 1)

abbrev cooling_client : Client
cooling_client = end_request 5 busy_client

abbrev leaving_client : Client
leaving_client = end_hold cooling_client

one_request : 1 ≤ busy_client.requests
unfolding take_slot
one_request = omega arith

one_hold : 1 ≤ cooling_client.cooling
unfolding take_slot end_request
one_hold = omega arith

Reach-leaving : Reach 1 leaving_client
Reach-leaving =
    step (step (step new (taken (omega arith))) (ended 5 one_request)) (hold_over one_hold)

Reach-IsCounted_example : IsCounted 1 leaving_client
Reach-IsCounted_example = Reach-IsCounted Reach-leaving
