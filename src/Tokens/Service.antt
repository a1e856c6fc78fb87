-- ===== src/Tokens/Service.antt =====
-- The methods of `TokensService`. The clock is an argument; logging is left out.
use trip2world.Prelude.{
  ℕ, zero, suc, ◌-◌, ◌*◌, Bool, true, false, not, ◌&&◌, ◌||◌, Option, none, some, List, [], ◌∷◌,
  ltb, ◌==◌, if◌then◌else◌, is_some, length, take, drop, filter, Text, is_blank,
}
use trip2world.Prelude.Dict.{Dict, lookup, insert}
use trip2world.Prelude.Int.{ℤ, pos, negsuc, sub_ℕ}
use trip2world.Tokens.Types.{
  LedgerKind, purchase_row, tip_sent, tip_received, adjustment, LedgerRow, Tip, TokenPackage,
  PurchaseStatus, pending, completed, TokenPurchase, Db, invalid_amount, self_tip, not_found,
  forbidden, already_answered, no_offer, unique_violation, Result, ok, err, Tx, pure, throw, ◌>>=◌,
  ◌>>◌, throw_if, or_throw, get,
}
use trip2world.Tokens.Accounts.{debit, credit, no_counters}

-- `tokenLedger.create`
abbrev pub append_row : LedgerRow → Tx (Unit {0})
append_row r db = ok (tt, record db { ledger = r ∷ db.ledger })

-- The row of a movement; the links that a movement has are set by its caller.
abbrev pub ledger_row : ℕ → ℤ → LedgerKind → ℕ → LedgerRow
ledger_row user_id delta kind balance_after = record {
  user_id = user_id;
  delta = delta;
  kind = kind;
  balance_after = balance_after;
  counterparty_id = none;
  tip_id = none;
  purchase_id = none;
  campaign_id = none;
  note = none;
}

abbrev pub create_tip : Tip → Tx ℕ
create_tip t db =
    ok (db.next_id, record db { tips = insert db.next_id t db.tips; next_id = suc db.next_id })

pub record TipInput : Type 0 where
  pub from_user_id : ℕ
  pub to_user_id : ℕ
  pub tokens : ℤ
  pub match_id : Option ℕ
  pub message : Option Text
  pub offered_seconds : Option ℕ

-- The transaction of `sendTip`, for a positive amount.
unfoldable pub transfer_tip : TipInput → ℕ → Tx (ℕ × ℕ)
transfer_tip input amount = do
  sender_balance ← debit input.from_user_id amount
  tip_id ← create_tip (record {
    match_id = input.match_id;
    from_user_id = input.from_user_id;
    to_user_id = input.to_user_id;
    tokens = amount;
    message = input.message;
    offered_seconds = input.offered_seconds;
    accepted = none;
    responded_at = none;
  })
  recipient_balance ← credit input.to_user_id amount (record { earned = amount; purchased = 0 })
  append_row (record (ledger_row input.from_user_id (sub_ℕ 0 amount) tip_sent sender_balance) {
    counterparty_id = some input.to_user_id;
    tip_id = some tip_id;
  })
  append_row (record (ledger_row input.to_user_id (pos amount) tip_received recipient_balance) {
    counterparty_id = some input.from_user_id;
    tip_id = some tip_id;
  })
  pure (tip_id, sender_balance)

-- `!Number.isInteger(tokens) || tokens <= 0`, over the integers.
unfoldable pub send_tip_amount : TipInput → ℤ → Tx (ℕ × ℕ)
send_tip_amount input (negsuc n) = throw invalid_amount
send_tip_amount input (pos zero) = throw invalid_amount
send_tip_amount input (pos (suc n)) = transfer_tip input (suc n)

unfoldable pub send_tip : TipInput → Tx (ℕ × ℕ)
unfolding send_tip_amount
send_tip input =
    if input.from_user_id == input.to_user_id
    then throw self_tip
    else send_tip_amount input input.tokens

-- `respondToOffer`: the sender and the seconds on offer.
unfoldable pub respond_to_offer : ℕ → ℕ → Bool → ℕ → Tx (ℕ × ℕ)
respond_to_offer tip_id user_id accepted now = do
  db ← get
  tip ← or_throw (lookup tip_id db.tips) not_found
  throw_if (not (tip.to_user_id == user_id)) forbidden
  throw_if (is_some tip.accepted) already_answered
  seconds ← or_throw tip.offered_seconds no_offer
  λ s. ok (
    (tip.from_user_id, seconds),
    record s {
      tips =
          insert tip_id (record tip { accepted = some accepted; responded_at = some now }) s.tips;
    },
  )

abbrev pub find_by_ref : ℕ → Dict TokenPurchase → Option (ℕ × TokenPurchase)
find_by_ref ref [] = none
find_by_ref ref ((id, p) ∷ rest) =
    if p.provider_ref == ref then some (id, p) else find_by_ref ref rest

-- `findFirst({ where: { id, active: true } })`
abbrev pub active_package : Option TokenPackage → Option TokenPackage
active_package none = none
active_package (some p) = if p.active then some p else none

-- The unique index on `providerRef` refuses a second purchase of one reference.
unfoldable pub create_purchase : ℕ → ℕ → ℕ → Tx ℕ
create_purchase user_id package_id provider_ref = do
  db ← get
  pkg ← or_throw (active_package (lookup package_id db.packages)) not_found
  throw_if (is_some (find_by_ref provider_ref db.purchases)) unique_violation
  λ s. ok (
    s.next_id,
    record s {
      next_id = suc s.next_id;
      purchases =
          insert s.next_id
            (record {
              buyer_id = user_id;
              package_id = package_id;
              provider_ref = provider_ref;
              provider_event_id = none;
              bought_tokens = pkg.package_tokens;
              amount_cents = pkg.price_cents;
              status = pending;
            })
            s.purchases;
    },
  )

abbrev pub is_completed : PurchaseStatus → Bool
is_completed completed = true
is_completed _ = false

-- Another row already holds the event id.
abbrev pub event_taken : ℕ → ℕ → Dict TokenPurchase → Bool
event_taken id event [] = false
event_taken id event ((j, p) ∷ rest) =
    (not (j == id) && elim p.provider_event_id [ none ↦ false | some e ↦ e == event ])
    || event_taken id event rest

-- `tokenPurchase.update`, under the unique index on `providerEventId`.
abbrev pub complete_purchase : ℕ → ℕ → TokenPurchase → Tx (Unit {0})
complete_purchase id event p db =
    if event_taken id event db.purchases
    then err unique_violation
    else ok (
      tt,
      record db {
        purchases =
            insert id (record p { status = completed; provider_event_id = some event })
              db.purchases;
      },
    )

-- The transaction of `fulfilPurchase` behind its read.
unfoldable pub fulfil_write : ℕ → TokenPurchase → ℕ → Tx Bool
fulfil_write id p event = do
  complete_purchase id event p
  balance ← credit p.buyer_id p.bought_tokens (record { earned = 0; purchased = p.bought_tokens })
  append_row (record (ledger_row p.buyer_id (pos p.bought_tokens) purchase_row balance) {
    purchase_id = some id;
  })
  pure true

-- What the transaction does with the row that it has read.
unfoldable pub fulfil_found : Option (ℕ × TokenPurchase) → ℕ → Tx Bool
fulfil_found none event = pure false
fulfil_found (some (id, p)) event =
    if is_completed p.status then pure false else fulfil_write id p event

-- P2002 is caught, after the roll-back.
abbrev pub catch_duplicate : Db → Result (Bool × Db) → Result (Bool × Db)
catch_duplicate db (err unique_violation) = ok (false, db)
catch_duplicate db r = r

unfoldable pub fulfil_purchase : ℕ → ℕ → Tx Bool
fulfil_purchase provider_ref event db =
    catch_duplicate db (fulfil_found (find_by_ref provider_ref db.purchases) event db)

-- `delta > 0 ? credit : debit`
unfoldable pub adjust_balance : ℕ → ℤ → Tx ℕ
adjust_balance user_id (pos n) = credit user_id n no_counters
adjust_balance user_id (negsuc n) = debit user_id (suc n)

abbrev pub is_zero : ℤ → Bool
is_zero (pos zero) = true
is_zero _ = false

-- The transaction of `adjust`.
unfoldable pub adjust_transaction : ℕ → ℤ → Text → Tx ℕ
adjust_transaction user_id delta note = do
  balance ← adjust_balance user_id delta
  append_row (record (ledger_row user_id delta adjustment balance) { note = some (take 200 note) })
  pure balance

unfoldable pub adjust : ℕ → ℤ → Text → Tx ℕ
adjust user_id delta note =
    if is_zero delta
    then throw invalid_amount
    else if is_blank note
    then throw invalid_amount
    else adjust_transaction user_id delta note

pub record Page : Type 0 where
  pub items : List LedgerRow
  pub total : ℕ
  pub has_more : Bool

abbrev pub rows_of : ℕ → List LedgerRow → List LedgerRow
rows_of user_id = filter (λ r. r.user_id == user_id)

-- `history`, newest first.
unfoldable pub history : ℕ → ℕ → ℕ → Db → Page
history user_id page page_size db =
    let rows = rows_of user_id db.ledger in
    record {
      items = take page_size (drop ((page - 1) * page_size) rows);
      total = length rows;
      has_more = ltb (page * page_size) (length rows);
    }
