-- ===== src/Social/Tests.antt =====
-- Tests of requests and connections at concrete calls.
use trip2world.Prelude.{
  ℕ, ◌≡◌, refl, true, false, ◌&&◌, none, some, List, [], ◌∷◌, arith, ◌==◌, if◌then◌else◌,
}
use trip2world.Social.Separation.{Apart, social_run-Apart, lapsed_connects}
use trip2world.Social.Agreement.{Agreed, social_run-Agreed}
use trip2world.Social.Steps.{SocialCall, sends, answers, social_run, social_call}
use trip2world.Social.Connections.{
  Person, SocialDb, RequestInput, ConnectionRequest, pending, now_connected, are_connected,
  send_request, lists_request, order_connection_pair, is_blocked_between,
}

abbrev open_person : Person
open_person = record { is_active = true; allow_requests = some true }

abbrev strangers : SocialDb
strangers = record {
  people = λ u. some open_person;
  requests = λ a b. none;
  connections = λ a b. none;
  block_rows = [];
  next_row = 10;
}

abbrev asks_for : ℕ → RequestInput
asks_for v = record { asked_user = v; from_match = some 7; note = none }

abbrev each_asks : List SocialCall
each_asks = sends 5 1 (asks_for 2) ∷ sends 6 2 (asks_for 1) ∷ []

each_asks_connects : are_connected 2 1 (social_run each_asks strangers) ≡ true
unfolding social_run social_call send_request are_connected order_connection_pair is_blocked_between
each_asks_connects = refl

social_run-Agreed_example : Agreed (social_run each_asks strangers)
unfolding Agreed are_connected
social_run-Agreed_example = social_run-Agreed each_asks strangers (λ x y two. refl)

-- User 2 has blocked user 1, whose earlier request is still there.
abbrev old_request : ConnectionRequest
old_request = record {
  request_id = 3;
  request_status = pending;
  request_message = none;
  request_match = none;
  responded_at = none;
  request_expires_at = some 100;
}

abbrev asked_before : SocialDb
asked_before = record strangers {
  requests = λ a b. if a == 1 && b == 2 then some old_request else none;
}

abbrev and_blocked : SocialDb
and_blocked = record asked_before {
  block_rows = record { blocker_id = 2; blocked_user_id = 1 } ∷ [];
}

abbrev tries : List SocialCall
tries = answers 50 2 1 3 true ∷ sends 51 2 (asks_for 1) ∷ sends 52 1 (asks_for 2) ∷ []

social_run-Apart_example : Apart 1 2 (social_run tries and_blocked)
unfolding Apart are_connected is_blocked_between
social_run-Apart_example = social_run-Apart 1 2 tries and_blocked refl (refl, refl)

lapsed_connects_example :
    (lists_request 200 2 1 asked_before ≡ false)
    × ((send_request 200 2 (asks_for 1) asked_before).0 ≡ now_connected)
    × (are_connected 2 1 (send_request 200 2 (asks_for 1) asked_before).1 ≡ true)
unfolding are_connected is_blocked_between
lapsed_connects_example =
    lapsed_connects 200 2 (asks_for 1) old_request open_person 100 asked_before (λ e. omega arith)
      refl refl refl (omega arith) refl refl refl refl refl
