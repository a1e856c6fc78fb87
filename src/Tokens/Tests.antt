-- ===== src/Tokens/Tests.antt =====
-- The theorems about the token ledger at a small database.
use trip2world.Prelude.{ℕ, ◌+◌, ◌≡◌, refl, true, false, none, some, [], ◌∷◌, arith, codes}
use trip2world.Prelude.Dict.{lookup, insert}
use trip2world.Prelude.Int.{pos, negsuc, ◌+ℤ◌}
use trip2world.Tokens.Types.{promo, Tip, TokenPackage, TokenPurchase, pending, Db, ok}
use trip2world.Tokens.Service.{TipInput, fulfil_purchase, ledger_row}
use trip2world.Tokens.Replay.{
  replay, Books, balance_of, sends_tip, fulfils, adjusts, run, run-Books,
}
use trip2world.Tokens.Purchases.{fulfil_once}

abbrev package_of_50 : TokenPackage
package_of_50 = record { active = true; package_tokens = 50; price_cents = 499 }

abbrev open_purchase : TokenPurchase
open_purchase = record {
  buyer_id = 1;
  package_id = 70;
  provider_ref = 900;
  provider_event_id = none;
  bought_tokens = 50;
  amount_cents = 499;
  status = pending;
}

abbrev open_tip : Tip
open_tip = record {
  match_id = none;
  from_user_id = 2;
  to_user_id = 1;
  tokens = 5;
  message = none;
  offered_seconds = some 60;
  accepted = none;
  responded_at = none;
}

-- User 1 has been granted 30 tokens, has an open purchase of 50 and an offer to answer.
abbrev small_db : Db
small_db = record {
  accounts = (1, record { balance = 30; lifetime_earned = 30; lifetime_purchased = 0 }) ∷ [];
  ledger = ledger_row 1 (pos 30) promo 30 ∷ [];
  tips = (80, open_tip) ∷ [];
  packages = (70, package_of_50) ∷ [];
  purchases = (90, open_purchase) ∷ [];
  next_id = 100;
}

abbrev tip_of : ℕ → TipInput
tip_of n = record {
  from_user_id = 1;
  to_user_id = 2;
  tokens = pos n;
  match_id = none;
  message = none;
  offered_seconds = none;
}

small_db-Books : Books small_db
unfolding replay lookup ◌+ℤ◌
small_db-Books = record { replayed = λ u. ground arith; stamped = (refl, tt) }

run-Books_example : Books (
    run small_db (
      sends_tip (tip_of 10)
      ∷ fulfils 900 7
      ∷ fulfils 900 7
      ∷ adjusts 2 (negsuc 3) (codes "oops")
      ∷ []))
run-Books_example =
    run-Books small_db
      (sends_tip (tip_of 10)
        ∷ fulfils 900 7
        ∷ fulfils 900 7
        ∷ adjusts 2 (negsuc 3) (codes "oops")
        ∷ [])
      small_db-Books

fulfil_once_example :
    (db' : Db) × (fulfil_purchase 900 7 small_db ≡ ok (true, db'))
    × (balance_of 1 db'.accounts ≡ balance_of 1 small_db.accounts + 50)
    × ((again : ℕ) → fulfil_purchase 900 again db' ≡ ok (false, db'))
fulfil_once_example = fulfil_once 900 90 7 open_purchase small_db refl refl refl

abbrev answered_db : Db
unfolding insert
answered_db = record small_db {
  tips = insert 80 (record open_tip { accepted = some true; responded_at = some 5 }) small_db.tips;
}
