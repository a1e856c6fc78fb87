-- ===== src/Realtime/Handlers.antt =====
-- The events of a match: skip, end, connected, the signals and the chat, and those of the queue.
use trip2world.Queue.Sets.{unique_from}
use trip2world.Pairing.Prepare.{Settings, Tick}
use trip2world.Matching.Types.{GenderPreference, Gender, AgeBracket, any_gender}
use trip2world.Pairing.Candidate.{PlanTier, CandidateInput, build_candidate}
use trip2world.Prelude.{
  ℕ, Bool, false, not, ◌&&◌, Option, none, some, List, [], ◌∷◌, ◌++◌, ltb, ◌==◌, if◌then◌else◌,
  is_some, get_or, Text,
}
use trip2world.Queue.Repository.{
  resolve_peer, check_skip_cooldown, leave, cache_blocks, get_cached_blocks, recent_partners,
  current_match, is_queued, join,
}
use trip2world.Pairing.Types.{skipped, ended}
use trip2world.Realtime.Presence.{set_state, PresenceState, online, connected, matching}
use trip2world.Realtime.Hub.{
  Hub, Answer, Frame, Sender, Event, on_chat, reply, tell, fail, allow, limited, invalid_payload,
  not_in_match, skip_cooldown, match_ended, queue_joined, queue_left, acknowledged, signal, chat,
  BlockRow, internal, account_restricted, on_queue_join, already_matched, restriction, failed,
}
use trip2world.Realtime.Matches.{teardown_match, on_store, attempt_match}

abbrev pub present : Sender → PresenceState → Hub → Hub
present s st h = record h { presence = set_state s.at_time s.sender_id st h.presence }

-- Frames before those of an answer, and after.
abbrev pub also : Answer → List Frame → Answer
also r fs = (r.0 ++ fs, r.1)

abbrev pub then_do : (Hub → Hub) → Answer → Answer
then_do f r = (r.0, f r.1)

-- A handler that only a participant of the match may use.
abbrev pub with_peer : Option ℕ → Sender → Hub → (ℕ → Answer) → Answer
with_peer none s h body = fail s not_in_match h
with_peer (some peer) s h body = body peer

abbrev pub for_peer : Sender → ℕ → Hub → (ℕ → Answer) → Answer
for_peer s m h body = with_peer (resolve_peer m s.sender_id h.world.redis) s h body

pub record SkipInput : Type 0 where
  pub skip_match : ℕ
  pub requeue : Bool

-- `ttl` is what Redis answers for a marker that is there.
unfoldable pub match_skip : Bool → ℕ → ℕ → Sender → Option SkipInput → Hub → Answer
match_skip db_up ttl min_seconds s none h = fail s invalid_payload h
match_skip db_up ttl min_seconds s (some d) h =
    let r = check_skip_cooldown ttl s.sender_id min_seconds h.world.redis in
    let spaced = on_store (λ x. r.1) h in
    if ltb 0 r.0
    then fail s skip_cooldown spaced
    else for_peer s d.skip_match spaced (λ peer.
      also (teardown_match db_up s.at_time d.skip_match (some s.sender_id) skipped spaced) (
        reply s (match_ended d.skip_match skipped d.requeue)
        ∷ reply s acknowledged
        ∷ (if d.requeue then reply s queue_joined ∷ [] else [])))

unfoldable pub match_end : Bool → Sender → Option ℕ → Hub → Answer
match_end db_up s none h = fail s invalid_payload h
match_end db_up s (some m) h = for_peer s m h (λ peer.
    also (then_do (present s online) (teardown_match db_up s.at_time m (some s.sender_id) ended h))
      (reply s (match_ended m ended false) ∷ reply s acknowledged ∷ []))

unfoldable pub match_connected : Sender → Option ℕ → Hub → Answer
match_connected s none h = fail s invalid_payload h
match_connected s (some m) h = elim (resolve_peer m s.sender_id h.world.redis) [
  | none ↦ ([], h)
  | some peer ↦ ([], present s connected h)
]

pub record SignalInput : Type 0 where
  pub signal_match : ℕ
  pub content : Text

abbrev pub relayed : Event → Sender → Option SignalInput → Hub → Answer
relayed e s none h = fail s invalid_payload h
relayed e s (some d) h =
    for_peer s d.signal_match h (λ peer. (tell peer (signal e d.signal_match d.content) ∷ [], h))

-- `relay` of one of the three signaling events.
unfoldable pub relay : Event → Sender → Option SignalInput → Hub → Answer
relay e s payload h = limited s (allow s e 300 60000 h) (relayed e s payload)

abbrev pub chatted : Sender → Option SignalInput → Hub → Answer
chatted s none h = fail s invalid_payload h
chatted s (some d) h = for_peer s d.signal_match h (λ peer. (
  tell peer (chat d.signal_match s.sender_id d.content)
      ∷ reply s (chat d.signal_match s.sender_id d.content)
      ∷ reply s acknowledged
      ∷ [],
  h,
))

unfoldable pub chat_message : Sender → Option SignalInput → Hub → Answer
chat_message s payload h = limited s (allow s on_chat 25 15000 h) (chatted s payload)

-- The country is that of the profile, if it can be loaded.
unfoldable pub queue_leave : Option Text → Sender → Hub → Answer
queue_leave country s h = (
  reply s queue_left ∷ reply s acknowledged ∷ [],
  present s online (on_store (leave s.sender_id country) h),
)

-- What `loadMatchCandidate` reads of a user; the age bracket is that of the date of birth.
pub record CandidateRow : Type 0 where
  pub row_plan : PlanTier
  pub row_gender : Option Gender
  pub row_country : Option Text
  pub row_languages : List Text
  pub row_age_bracket : Option AgeBracket
  pub row_interests : List Text
  pub stored_gender : Option GenderPreference
  pub stored_countries : Option (List Text)
  pub stored_languages : Option (List Text)
  pub stored_age_brackets : Option (List AgeBracket)

pub record JoinInput : Type 0 where
  pub has_camera : Bool
  pub has_microphone : Bool
  pub chosen_gender : Option GenderPreference
  pub chosen_countries : Option (List Text)
  pub chosen_languages : Option (List Text)
  pub chosen_age_brackets : Option (List AgeBracket)
  pub chosen_interests : Option (List Text)

-- `overrides.x ?? row.preference?.x ?? other`
abbrev pub first_of : {A : Type 0} → Option A → Option A → A → A
first_of a b other = get_or a (get_or b other)

abbrev pub join_input : ℕ → JoinInput → CandidateRow → List ℕ → List ℕ → CandidateInput
join_input u d row blocked recent = record {
  input_user_id = u;
  plan = row.row_plan;
  profile_gender = row.row_gender;
  profile_country = row.row_country;
  profile_languages = row.row_languages;
  profile_age_bracket = row.row_age_bracket;
  wanted_gender = first_of d.chosen_gender row.stored_gender any_gender;
  wanted_countries = first_of d.chosen_countries row.stored_countries [];
  wanted_languages = first_of d.chosen_languages row.stored_languages [];
  wanted_age_brackets = first_of d.chosen_age_brackets row.stored_age_brackets [];
  input_interest_ids = get_or d.chosen_interests row.row_interests;
  input_excluded_user_ids = blocked;
  input_recent_partner_ids = recent;
  priority_queue_enabled = false;
}

-- `getBlockedUserIds` of packages/database/src/queries.ts: whoever blocks the user or is blocked.
abbrev pub other_side : ℕ → BlockRow → List ℕ
other_side u b =
    if b.blocker_id == u
    then b.blocked_user_id ∷ []
    else (if b.blocked_user_id == u then b.blocker_id ∷ [] else [])

unfoldable pub block_sides : ℕ → List BlockRow → List ℕ
block_sides u [] = []
block_sides u (b ∷ bs) = other_side u b ++ block_sides u bs

unfoldable pub get_blocked_user_ids : ℕ → List BlockRow → List ℕ
get_blocked_user_ids u bs = unique_from [] (block_sides u bs)

-- The blocks of the user through the cache.
unfoldable pub read_blocks : Option (List ℕ) → ℕ → Hub → List ℕ × Hub
read_blocks (some ids) u h = (ids, h)
read_blocks none u h =
    let ids = get_blocked_user_ids u h.blocks in (ids, on_store (cache_blocks u ids) h)

abbrev pub after_attempt : List Frame → Bool × Answer → Answer
after_attempt fs r = (fs ++ r.1.0, r.1.1)

unfoldable pub join_with :
    Settings → Tick → Bool → (ℕ → Bool) → Sender → JoinInput → CandidateRow → Hub → Answer
join_with cfg t db_up exists s d row h =
    let (blocked, cached) =
      read_blocks (get_cached_blocks s.sender_id h.world.redis) s.sender_id h in
    let (recent, trimmed) = recent_partners s.at_time s.sender_id cached.world.redis in
    let candidate = build_candidate s.at_time (join_input s.sender_id d row blocked recent) in
    let queued = present s matching (on_store (λ x. join candidate trimmed) cached) in
    after_attempt (reply s queue_joined ∷ reply s acknowledged ∷ [])
      (attempt_match cfg t db_up exists s.sender_id queued)

abbrev pub join_row :
    Settings → Tick → Bool → (ℕ → Bool) → Sender → JoinInput → Option CandidateRow → Hub → Answer
join_row cfg t db_up exists s d none h = fail s internal h
join_row cfg t db_up exists s d (some row) h = join_with cfg t db_up exists s d row h

-- The answer of `revalidateSocket`: the account may stay, or is restricted, as banned or as suspended.
pub data Standing : Type 0 where
  may_stay : Standing
  restricted_as : Bool → Standing

unfoldable pub join_checked :
    Settings
    → Tick
    → Bool
    → (ℕ → Bool)
    → Standing
    → Sender
    → Option JoinInput
    → Option CandidateRow
    → Hub
    → Answer
join_checked cfg t db_up exists standing s none row h = fail s invalid_payload h
join_checked cfg t db_up exists (restricted_as is_banned) s (some d) row h =
    (reply s (restriction is_banned) ∷ reply s (failed account_restricted) ∷ [], h)
join_checked cfg t db_up exists may_stay s (some d) row h =
    if is_some (current_match s.sender_id h.world.redis)
    then fail s already_matched h
    else (if not d.has_camera && not d.has_microphone
        then fail s invalid_payload h
        else (if is_queued s.sender_id h.world.redis
            then (reply s acknowledged ∷ [], h)
            else join_row cfg t db_up exists s d row h))

unfoldable pub queue_join :
    Settings
    → Tick
    → Bool
    → (ℕ → Bool)
    → Standing
    → Sender
    → Option JoinInput
    → Option CandidateRow
    → Hub
    → Answer
queue_join cfg t db_up exists standing s payload row h =
    limited s (allow s on_queue_join 60 60000 h)
      (join_checked cfg t db_up exists standing s payload row)
