-- ===== src/Tokens/Types.antt =====
-- The tables of the token ledger (packages/database/prisma/schema.prisma), the errors of the
-- service, and its transactions. Ids are numbers; the database hands out fresh ones. Balances are
-- unbounded: a column overflow, which aborts a statement, is left out.
use trip2world.Prelude.{ℕ, Bool, true, false, Option, none, some, List, Text}
use trip2world.Prelude.Dict.{Dict}
use trip2world.Prelude.Int.{ℤ}

pub record TokenAccount : Type 0 where
  pub balance : ℕ
  pub lifetime_earned : ℕ
  pub lifetime_purchased : ℕ

pub data LedgerKind : Type 0 where
  purchase_row tip_sent tip_received refund adjustment promo : LedgerKind

pub record LedgerRow : Type 0 where
  pub user_id : ℕ
  pub delta : ℤ
  pub kind : LedgerKind
  pub balance_after : ℕ
  pub counterparty_id : Option ℕ
  pub tip_id : Option ℕ
  pub purchase_id : Option ℕ
  pub campaign_id : Option ℕ
  pub note : Option Text

pub record Tip : Type 0 where
  pub match_id : Option ℕ
  pub from_user_id : ℕ
  pub to_user_id : ℕ
  pub tokens : ℕ
  pub message : Option Text
  pub offered_seconds : Option ℕ
  pub accepted : Option Bool
  pub responded_at : Option ℕ

pub record TokenPackage : Type 0 where
  pub active : Bool
  pub package_tokens : ℕ
  pub price_cents : ℕ

pub data PurchaseStatus : Type 0 where
  pending completed failed refunded : PurchaseStatus

pub record TokenPurchase : Type 0 where
  pub buyer_id : ℕ
  pub package_id : ℕ
  pub provider_ref : ℕ
  pub provider_event_id : Option ℕ
  pub bought_tokens : ℕ
  pub amount_cents : ℕ
  pub status : PurchaseStatus

-- The ledger is listed newest first.
pub record Db : Type 0 where
  pub accounts : Dict TokenAccount
  pub ledger : List LedgerRow
  pub tips : Dict Tip
  pub packages : Dict TokenPackage
  pub purchases : Dict TokenPurchase
  pub next_id : ℕ

-- `TokenErrorCode`, and Prisma's P2002 for a broken unique index.
pub data TokenError : Type 0 where
  insufficient_funds invalid_amount self_tip not_found forbidden already_answered no_offer :
      TokenError
  unique_violation : TokenError

pub data Result (A : Type 0) : Type 0 where
  ok : A → Result A
  err : TokenError → Result A

-- A transaction: a failure loses what was written, as a roll-back does.
abbrev pub Tx : Type 0 → Type 0
Tx A = Db → Result (A × Db)

abbrev pub pure : {A : Type 0} → A → Tx A
pure a db = ok (a, db)

abbrev pub throw : {A : Type 0} → TokenError → Tx A
throw e db = err e

infixl 5 ◌>>=◌ ◌>>◌
abbrev pub ◌>>=◌ : {A B : Type 0} → Tx A → (A → Tx B) → Tx B
◌>>=◌ m f db = elim (m db) [ ok (a, db') ↦ f a db' | err e ↦ err e ]

abbrev pub ◌>>◌ : {B : Type 0} → Tx (Unit {0}) → Tx B → Tx B
m >> k = m >>= λ _. k

-- `if (test) throw e`
abbrev pub throw_if : Bool → TokenError → Tx (Unit {0})
throw_if true e db = err e
throw_if false e db = ok (tt, db)

abbrev pub or_throw : {A : Type 0} → Option A → TokenError → Tx A
or_throw none e db = err e
or_throw (some a) e db = ok (a, db)

abbrev pub get : Tx Db
get db = ok (db, db)
