-- ===== src/Realtime/Tips.antt =====
-- The events `tip:send` and `tip:respond`, over the token service.
use trip2world.Prelude.{
  ℕ, suc, ◌+◌, ◌≤◌, ◌≡◌, refl, ◌≢◌, inl, inr, Bool, true, false, Option, none, some, List, [], ◌∷◌,
  arith, if◌then◌else◌, Option-cases, In, Text,
}
use trip2world.Prelude.Int.{ℤ, pos}
use trip2world.Prelude.Dict.{lookup}
use trip2world.Queue.Repository.{resolve_peer}
use trip2world.Tokens.Types.{Db, Result, ok, err, TokenAccount}
use trip2world.Tokens.Accounts.{get_balance}
use trip2world.Tokens.Service.{TipInput, send_tip, respond_to_offer}
use trip2world.Tokens.Replay.{balance_of}
use trip2world.Tokens.Transfers.{send_tip_moves}
use trip2world.Realtime.Hub.{
  Hub, Frame, Sender, on_tip, on_tip_response, reply, tell, failed, rate_limited, invalid_payload,
  not_in_match, acknowledged, tip_arrived, tokens_balance, offer_resolved, allow,
}

-- The frames, the server and the token tables after an event.
abbrev pub Paid : Type 0
Paid = List Frame × Hub × Db

pub record TipPayload : Type 0 where
  pub tip_match : ℕ
  pub tip_tokens : ℤ
  pub tip_message : Option Text
  pub tip_seconds : Option ℕ

abbrev pub tip_input : Sender → TipPayload → ℕ → TipInput
tip_input s d peer = record {
  from_user_id = s.sender_id;
  to_user_id = peer;
  tokens = d.tip_tokens;
  match_id = some d.tip_match;
  message = d.tip_message;
  offered_seconds = d.tip_seconds;
}

-- The balance of the recipient is read after the tip.
abbrev pub tip_frames :
    Sender → TipPayload → ℕ → ℕ → ℕ → Result (TokenAccount × Db) → Hub → Db → Paid
tip_frames s d peer tip left (err e) h db = (reply s (failed invalid_payload) ∷ [], h, db)
tip_frames s d peer tip left (ok (a, read)) h db = (
  tell peer (tip_arrived tip d.tip_match s.sender_id d.tip_tokens d.tip_seconds false)
      ∷ reply s (tip_arrived tip d.tip_match s.sender_id d.tip_tokens d.tip_seconds true)
      ∷ reply s (tokens_balance left)
      ∷ tell peer (tokens_balance a.balance)
      ∷ reply s acknowledged
      ∷ [],
  h,
  read,
)

abbrev pub tip_result : Sender → TipPayload → ℕ → Result ((ℕ × ℕ) × Db) → Hub → Db → Paid
tip_result s d peer (err e) h db = (reply s (failed invalid_payload) ∷ [], h, db)
tip_result s d peer (ok ((tip, left), moved)) h db =
    tip_frames s d peer tip left (get_balance peer moved) h moved

abbrev pub tip_peer : Sender → TipPayload → Option ℕ → Hub → Db → Paid
tip_peer s d none h db = (reply s (failed not_in_match) ∷ [], h, db)
tip_peer s d (some peer) h db = tip_result s d peer (send_tip (tip_input s d peer) db) h db

abbrev pub tip_payload : Sender → Option TipPayload → Hub → Db → Paid
tip_payload s none h db = (reply s (failed invalid_payload) ∷ [], h, db)
tip_payload s (some d) h db = tip_peer s d (resolve_peer d.tip_match s.sender_id h.world.redis) h db

abbrev pub within_bucket : Sender → Bool × Hub → Db → (Hub → Paid) → Paid
within_bucket s (true, h) db body = body h
within_bucket s (false, h) db body = (reply s (failed rate_limited) ∷ [], h, db)

unfoldable pub tip_send : Sender → Option TipPayload → Hub → Db → Paid
tip_send s payload h db =
    within_bucket s (allow s on_tip 30 60000 h) db (λ g. tip_payload s payload g db)

pub record AnswerPayload : Type 0 where
  pub answered_tip : ℕ
  pub accepts : Bool

abbrev pub answer_result : Sender → AnswerPayload → Result ((ℕ × ℕ) × Db) → Hub → Db → Paid
answer_result s d (err e) h db = (reply s (failed invalid_payload) ∷ [], h, db)
answer_result s d (ok ((from, seconds), answered)) h db =
    let outcome =
      offer_resolved d.answered_tip d.accepts (if d.accepts then some seconds else none) in
    (reply s outcome ∷ tell from outcome ∷ reply s acknowledged ∷ [], h, answered)

abbrev pub answer_payload : Sender → Option AnswerPayload → Hub → Db → Paid
answer_payload s none h db = (reply s (failed invalid_payload) ∷ [], h, db)
answer_payload s (some d) h db =
    answer_result s d (respond_to_offer d.answered_tip s.sender_id d.accepts s.at_time db) h db

unfoldable pub tip_respond : Sender → Option AnswerPayload → Hub → Db → Paid
tip_respond s payload h db =
    within_bucket s (allow s on_tip_response 60 60000 h) db (λ g. answer_payload s payload g db)

-- A read of an account that is there.
read_account :
    (u n : ℕ) (db : Db)
    → suc n ≤ balance_of u db.accounts
    → (a : TokenAccount) × (get_balance u db ≡ ok (a, db))
unfolding get_balance
read_account u n db h = elim (Option-cases (lookup u db.accounts)) [
  | inl absent ↦ absurd (ground (arith, h, absent))
  | inr (a, e) ↦ (a, rw (get_balance, e) refl)
]

tip_peer-moves :
    (s : Sender) (d : TipPayload) (peer n : ℕ) (h : Hub) (db : Db)
    → d.tip_tokens ≡ pos (suc n)
    → s.sender_id ≢ peer
    → suc n ≤ balance_of s.sender_id db.accounts
    → let (frames, _, db') = tip_peer s d (some peer) h db in
      (balance_of s.sender_id db'.accounts + suc n ≡ balance_of s.sender_id db.accounts)
      × (balance_of peer db'.accounts ≡ balance_of peer db.accounts + suc n)
      × ((u : ℕ) → u ≢ s.sender_id → u ≢ peer → lookup u db'.accounts ≡ lookup u db.accounts)
      × ((tip : ℕ) × In
            (tell peer (tip_arrived tip d.tip_match s.sender_id d.tip_tokens d.tip_seconds false))
            frames)
tip_peer-moves s d peer n h db amount other enough =
    let (db', sent, less, more, rest) =
      send_tip_moves (tip_input s d peer) n db amount other enough in
    let (a, read) = read_account peer n db' (ground (arith, more)) in
    rw (sent, read) (less, more, rest, (db.next_id, inl refl))

-- A tip that its bucket lets through, to the sender's peer in the match, who is another user, of an
-- amount that the sender holds, moves that amount from the sender to the peer and changes no other
-- account, and the peer is told.
pub tip_send-resolve_peer :
    (s : Sender) (d : TipPayload) (peer n : ℕ) (h : Hub) (db : Db)
    → (allow s on_tip 30 60000 h).0 ≡ true
    → resolve_peer d.tip_match s.sender_id h.world.redis ≡ some peer
    → d.tip_tokens ≡ pos (suc n)
    → s.sender_id ≢ peer
    → suc n ≤ balance_of s.sender_id db.accounts
    → let (frames, _, db') = tip_send s (some d) h db in
      (balance_of s.sender_id db'.accounts + suc n ≡ balance_of s.sender_id db.accounts)
      × (balance_of peer db'.accounts ≡ balance_of peer db.accounts + suc n)
      × ((u : ℕ) → u ≢ s.sender_id → u ≢ peer → lookup u db'.accounts ≡ lookup u db.accounts)
      × ((tip : ℕ) × In
            (tell peer (tip_arrived tip d.tip_match s.sender_id d.tip_tokens d.tip_seconds false))
            frames)
unfolding tip_send allow
tip_send-resolve_peer s d peer n h db passes met amount other enough =
    rw (passes, met)
      (tip_peer-moves s d peer n (allow s on_tip 30 60000 h).1 db amount other enough)
