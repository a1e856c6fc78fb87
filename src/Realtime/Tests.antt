-- ===== src/Realtime/Tests.antt =====
-- Tests of the server at concrete inputs.
use trip2world.Pairing.Occupancy.{occupied}
use trip2world.Matching.Stages.{relaxation_stage_for, stage_loop, active_constraints}
use trip2world.Matching.Shards.{shards_to_scan, add_shards, add_shard, shard_for}
use trip2world.Matching.Rules.{check_hard_rules, satisfies_preferences, gender_satisfied}
use trip2world.Matching.Select.{select_best_match, select_loop, consider, selection}
use trip2world.Queue.Sets.{zrange, unique_from, members}
use trip2world.Pairing.Commit.{work, acquire, release_one, check_passes}
use trip2world.Pairing.Progress.{alone}
use trip2world.Realtime.Matches.{attempt_match, try_match, work_job, announce_match}
use trip2world.Realtime.Lifecycle.{tick, sweep, sweep_user}
use trip2world.Prelude.{
  ℕ, ◌+◌, ◌≡◌, refl, ◌≢◌, inl, inr, true, false, none, some, List, [], ◌∷◌, arith, ltb, ◌==◌,
  if◌then◌else◌, In, codes,
}
use trip2world.Realtime.Runs.{handle_all-Over}
use trip2world.Realtime.Events.{AllUnused, SweepsUnused, Occurrence, timer, handle_all, handle}
use trip2world.Pairing.Prepare.{Settings, Tick, prepare}
use trip2world.Matching.Types.{QueueCandidate, any_gender}
use trip2world.Tokens.Accounts.{empty_account}
use trip2world.Tokens.Replay.{balance_of}
use trip2world.Prelude.Dict.{lookup}
use trip2world.Prelude.Int.{pos}
use trip2world.Realtime.Tips.{tip_send, TipPayload, tip_send-resolve_peer}
use trip2world.Tokens.Types.{Db}
use trip2world.Queue.Store.{Store, MatchRecord, json}
use trip2world.Queue.Repository.{
  resolve_peer, is_queued, get_match_participants, peer_in, get_entry, read_entry, load_candidates,
  parse_entries, sort_entry, scan_ids, scanned, zrem_stale, recent_partners, current_match,
  claim_for_match, leave, record_recent_partner, trim_expired, save_match,
}
use trip2world.Pairing.Types.{ended}
use trip2world.Realtime.Presence.{PresenceTable, expire_keys}
use trip2world.Realtime.Hub.{
  Hub, Sender, on_offer, tell, reply, partner_left, failed, not_in_match, signal, allow, take_token,
  tip_arrived,
}
use trip2world.Realtime.Handlers.{SignalInput, relay, match_end}
use trip2world.Realtime.Safety.{user_block}
use trip2world.Realtime.Rooms.{Reaches, relay-Reaches}
use trip2world.Realtime.Endings.{Over, user_block_outsider}
use trip2world.Realtime.Blocks.{Excludes, user_block-Excludes}
use trip2world.Realtime.Ghosts.{Ghost, PresenceCall, connects, clears, serve_all, serve_all-Ghost}

-- Users 1 and 2 are in match 7.
abbrev pair : MatchRecord
pair = record { user_a = 1; user_b = 2 }

abbrev store : Store
store = record {
  entry = λ u. none;
  queue = λ sh. [];
  active_shards = [];
  user_match = λ u. if u == 1 then some 7 else (if u == 2 then some 7 else none);
  match_of = λ m. if m == 7 then some pair else none;
  match_lock = λ u. none;
  recent = λ u. [];
  skip_marker = λ u. false;
  block_cache = λ u. some [];
}

abbrev people : PresenceTable
people = record { hashes = λ u. none; sockets = λ u. []; online_set = 1 ∷ 2 ∷ [] }

abbrev hub : Hub
hub = record {
  world = record { redis = store; matches = [] };
  presence = people;
  blocks = [];
  report_rows = [];
  buckets = λ socket e. none;
}

abbrev from_user : ℕ → Sender
from_user u = record { socket_id = 100 + u; sender_id = u; at_time = 5 }

abbrev offer : SignalInput
offer = record { signal_match = 7; content = codes "sdp" }

relay-Reaches_example : (resolve_peer 7 1 store ≡ some 2) × (resolve_peer 7 2 store ≡ some 1)
unfolding relay allow take_token resolve_peer get_match_participants peer_in
relay-Reaches_example =
    relay-Reaches on_offer (from_user 1) offer hub 2
      (inl (tell 2 (signal on_offer 7 (codes "sdp")), inl refl, refl))

-- User 3 blocks user 4 and names the match of 1 and 2.
user_block_outsider_example :
    (match_end true (from_user 3) (some 7) hub
      ≡ (reply (from_user 3) (failed not_in_match) ∷ [], hub))
    × Over 7 pair
        (user_block true
          (from_user 3)
          (some (record { block_target = 4; block_match = some 7 }))
          hub).1.world
    × ((v : ℕ)
        → ¬ (
            Reaches v
              (user_block true
                (from_user 3)
                (some (record { block_target = 4; block_match = some 7 }))
                hub).0))
unfolding resolve_peer get_match_participants peer_in
user_block_outsider_example =
    user_block_outsider true (from_user 3) 4 7 pair hub (λ e. omega arith) refl refl

user_block-Excludes_example :
    Excludes 1 2
      (user_block true
        (from_user 1)
        (some (record { block_target = 2; block_match = some 7 }))
        hub).1
    × Excludes 2 1
        (user_block true
          (from_user 1)
          (some (record { block_target = 2; block_match = some 7 }))
          hub).1
user_block-Excludes_example =
    user_block-Excludes true (from_user 1) (record { block_target = 2; block_match = some 7 }) hub
      (λ e. omega arith)

abbrev after_expiry : List PresenceCall
after_expiry = connects 9 50 3 103 ∷ clears 8 ∷ clears 9 ∷ []

serve_all-Ghost_example : Ghost 2 (serve_all after_expiry (expire_keys 2 people))
serve_all-Ghost_example = serve_all-Ghost after_expiry 2 people refl (inr (inl refl))

-- User 1 has thirty tokens.
abbrev tokens_db : Db
tokens_db = record {
  accounts = (1, record empty_account { balance = 30 }) ∷ [];
  ledger = [];
  tips = [];
  packages = [];
  purchases = [];
  next_id = 50;
}

abbrev ten_tokens : TipPayload
ten_tokens = record { tip_match = 7; tip_tokens = pos 10; tip_message = none; tip_seconds = none }

tip_send-resolve_peer_example :
    (let (frames, _, after) = tip_send (from_user 1) (some ten_tokens) hub tokens_db in
      (balance_of 1 after.accounts + 10 ≡ 30)
      × (balance_of 2 after.accounts ≡ 0 + 10)
      × ((u : ℕ) → u ≢ 1 → u ≢ 2 → lookup u after.accounts ≡ lookup u tokens_db.accounts)
      × ((tip : ℕ) × In (tell 2 (tip_arrived tip 7 1 (pos 10) none false)) frames))
unfolding lookup allow take_token resolve_peer get_match_participants peer_in
tip_send-resolve_peer_example =
    tip_send-resolve_peer (from_user 1) ten_tokens 2 9 hub tokens_db refl refl refl
      (λ e. omega arith) (omega arith)

-- Users 1 and 2 are in the global queue, and nobody is in a match.
abbrev waiting_user : ℕ → QueueCandidate
waiting_user u = record {
  user_id = u;
  queued_at = 1000;
  gender_of = none;
  country_of = none;
  languages = [];
  age_bracket_of = none;
  interest_ids = [];
  preferred_gender = any_gender;
  preferred_countries = [];
  preferred_languages = [];
  preferred_age_brackets = [];
  excluded_user_ids = [];
  recent_partner_ids = [];
  priority = 0;
}

abbrev waiting_store : Store
waiting_store = record store {
  entry = λ u. if ltb u 3 then some (json (waiting_user u)) else none;
  queue = λ sh. (1000, 1) ∷ (1000, 2) ∷ [];
  user_match = λ u. none;
  match_of = λ m. none;
}

abbrev waiting_hub : Hub
waiting_hub = record hub { world = record { redis = waiting_store; matches = [] } }

abbrev turn : Tick
turn = record { tick_now = 5000; token = 100; fresh_match_id = 500; tick_node = 1 }

abbrev plain : Settings
plain = record { relaxation_stages = []; skip_cooldown_seconds = 60 }

abbrev one_sweep : List Occurrence
one_sweep = timer ((1, turn) ∷ []) ∷ []

paired : occupied (handle_all plain true (λ u. true) one_sweep waiting_hub).1.world 1 ≡ some 500
unfolding handle_all handle tick sweep sweep_user attempt_match try_match work_job prepare get_entry
    read_entry load_candidates parse_entries sort_entry scan_ids scanned zrem_stale recent_partners
    is_queued current_match alone work acquire release_one check_passes claim_for_match leave
    record_recent_partner trim_expired zrange unique_from select_best_match select_loop consider
    check_hard_rules satisfies_preferences gender_satisfied shards_to_scan add_shards add_shard
    shard_for relaxation_stage_for stage_loop active_constraints announce_match save_match members
    selection
paired = refl

handle_all-Over_example :
    let g = (handle_all plain true (λ u. true) one_sweep waiting_hub).1 in
    (peer : ℕ) × (resolve_peer 500 1 g.world.redis ≡ some peer)
    × ((p : MatchRecord) × (g.world.redis.match_of 500 ≡ some p)
        × Over 500 p (match_end true (from_user 1) (some 500) g).1.world
        × In (tell peer (partner_left 500 ended)) (match_end true (from_user 1) (some 500) g).0)
unfolding AllUnused SweepsUnused current_match
handle_all-Over_example =
    handle_all-Over plain true (λ u. true) one_sweep waiting_hub (from_user 1) 500 (λ u. refl)
      ((refl, tt), tt) paired
