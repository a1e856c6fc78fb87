-- ===== src/Tokens/Replay.antt =====
-- The ledger is the truth: replaying it gives every balance, after any calls of the service.
use trip2world.Prelude.{
  ℕ, zero, suc, ◌-◌, ◌≤◌, ◌≡◌, refl, sym, inl, inr, Bool, Option, none, some, List, [], ◌∷◌, arith,
  ◌==◌, if◌then◌else◌, Bool-cases, Option-cases, Text, is_blank,
}
use trip2world.Tokens.Accounts.{
  credit, debit-Debits, Counters, get_balance, credited, empty_account, no_counters,
}
use trip2world.Tokens.Service.{
  transfer_tip, TipInput, send_tip, respond_to_offer, create_purchase, fulfil_write,
  send_tip_amount, event_taken, fulfil_purchase, adjust, catch_duplicate, fulfil_found, find_by_ref,
  is_completed, adjust_transaction, is_zero, adjust_balance,
}
use mathlib.Core.Path.{subst₂}
use trip2world.Prelude.Dict.{Dict, lookup, insert, lookup-insert}
use trip2world.Prelude.Int.{ℤ, pos, ◌+ℤ◌, sub_ℕ, negsuc}
use trip2world.Tokens.Types.{
  unique_violation, TokenAccount, LedgerRow, Db, Result, ok, err, ◌>>=◌, TokenPurchase,
}

abbrev pub funds : Option TokenAccount → ℕ
funds none = 0
funds (some a) = a.balance

-- A user without an account has nothing.
abbrev pub balance_of : ℕ → Dict TokenAccount → ℕ
balance_of user_id accounts = funds (lookup user_id accounts)

-- The sum of a user's movements.
unfoldable pub replay : ℕ → List LedgerRow → ℤ
replay user_id [] = pos 0
replay user_id (r ∷ rows) =
    if r.user_id == user_id then replay user_id rows +ℤ r.delta else replay user_id rows

-- Each row holds the balance that the ledger gives up to it.
abbrev pub IsStamped : List LedgerRow → Type 0
IsStamped [] = Unit {0}
IsStamped (r ∷ rows) = (pos r.balance_after ≡ replay r.user_id (r ∷ rows)) × IsStamped rows

pub record Inv (accounts : Dict TokenAccount) (ledger : List LedgerRow) : Type 0 where
  pub replayed : (user_id : ℕ) → pos (balance_of user_id accounts) ≡ replay user_id ledger
  pub stamped : IsStamped ledger

abbrev pub Books : Db → Type 0
Books db = Inv db.accounts db.ledger

module _ (accounts : Dict TokenAccount) (ledger : List LedgerRow) (r : LedgerRow)
    (a : TokenAccount) where
  -- An account written together with its row keeps the books.
  movement-Inv :
      Inv accounts ledger
      → r.balance_after ≡ a.balance
      → pos a.balance ≡ pos (balance_of r.user_id accounts) +ℤ r.delta
      → Inv (insert r.user_id a accounts) (r ∷ ledger)
  unfolding replay
  movement-Inv inv after moved = record {
    replayed = λ u.
        ground
          (arith, lookup-insert u r.user_id a accounts, inv.replayed u, inv.replayed r.user_id);
    stamped = (ground (arith, inv.replayed r.user_id), inv.stamped);
  }

abbrev pub after : {A : Type 0} → Db → Result (A × Db) → Db
after db (ok (_, db')) = db'
after db (err _) = db

credited_balance :
    (o : Option TokenAccount) (n : ℕ) (c : Counters)
    → pos (credited o n c).balance ≡ pos (funds o) +ℤ pos n
unfolding ◌+ℤ◌
credited_balance none n c = ground arith
credited_balance (some a) n c = ground arith

debited_balance : (b n : ℕ) → n ≤ b → pos (b - n) ≡ pos b +ℤ sub_ℕ 0 n
unfolding ◌+ℤ◌
debited_balance b n h = ground arith

debited_suc : (b n : ℕ) → suc n ≤ b → pos (b - suc n) ≡ pos b +ℤ negsuc n
unfolding ◌+ℤ◌
debited_suc b n h = ground arith

transfer_tip-Books :
    (input : TipInput) (n : ℕ) (db : Db) → Books db → Books (after db (transfer_tip input n db))
unfolding transfer_tip credit
transfer_tip-Books input n db inv = elim (debit-Debits input.from_user_id n db) [
  | inl refused ↦ rw (refused, after, ◌>>=◌) inv
  | inr (a, e, enough, debited) ↦
      rw (debited, after, ◌>>=◌)
        (movement-Inv _ _ _ _
          (movement-Inv db.accounts db.ledger _ (record a { balance = a.balance - n }) inv refl
            (rw (e, funds) (debited_balance a.balance n enough)))
          refl (credited_balance (lookup input.to_user_id _) n _))
]

send_tip-Books : (input : TipInput) (db : Db) → Books db → Books (after db (send_tip input db))
unfolding send_tip
send_tip-Books input db inv = elim (Bool-cases (input.from_user_id == input.to_user_id)) [
  | inl same ↦ rw (same, after) inv
  | inr other ↦ rw (other, after) (by_amount input.tokens)
]
  where
    by_amount : (t : ℤ) → Books (after db (send_tip_amount input t db))
    by_amount (negsuc n) = inv
    by_amount (pos zero) = inv
    by_amount (pos (suc n)) = transfer_tip-Books input (suc n) db inv

-- A call that leaves accounts and ledger alone.
untouched-Books :
    (db db' : Db) → db'.accounts ≡ db.accounts → db'.ledger ≡ db.ledger → Books db → Books db'
untouched-Books db db' e f inv = subst₂ Inv (sym e) (sym f) inv

respond_to_offer-Books :
    (tip_id user_id : ℕ) (accepted : Bool) (now : ℕ) (db : Db)
    → Books db
    → Books (after db (respond_to_offer tip_id user_id accepted now db))
unfolding respond_to_offer
respond_to_offer-Books tip_id user_id accepted now db inv =
    untouched-Books db (after db (respond_to_offer tip_id user_id accepted now db)) (ground arith)
      (ground arith) inv

create_purchase-Books :
    (user_id package_id ref : ℕ) (db : Db)
    → Books db
    → Books (after db (create_purchase user_id package_id ref db))
unfolding create_purchase
create_purchase-Books user_id package_id ref db inv =
    untouched-Books db (after db (create_purchase user_id package_id ref db)) (ground arith)
      (ground arith) inv

get_balance-Books : (user_id : ℕ) (db : Db) → Books db → Books (after db (get_balance user_id db))
unfolding get_balance
get_balance-Books user_id db inv = elim (Option-cases (lookup user_id db.accounts)) [
  | inl absent ↦
      rw (absent, get_balance, after)
        (record {
          replayed = λ u.
              ground (arith, lookup-insert u user_id empty_account db.accounts, inv.replayed u);
          stamped = inv.stamped;
        })
  | inr (a, e) ↦ rw (e, get_balance, after) inv
]

fulfil_write-Books :
    (id : ℕ) (p : TokenPurchase) (event : ℕ) (db : Db)
    → Books db
    → Books (after db (fulfil_write id p event db))
unfolding fulfil_write credit
fulfil_write-Books id p event db inv = elim (Bool-cases (event_taken id event db.purchases)) [
  | inl taken ↦ rw (taken, after, ◌>>=◌) inv
  | inr free ↦
      rw (free, after, ◌>>=◌)
        (movement-Inv _ _ _ _ inv refl (credited_balance (lookup p.buyer_id _) p.bought_tokens _))
]

fulfil_purchase-Books :
    (ref event : ℕ) (db : Db) → Books db → Books (after db (fulfil_purchase ref event db))
unfolding fulfil_purchase fulfil_found
fulfil_purchase-Books ref event db inv =
    caught (fulfil_found (find_by_ref ref db.purchases) event db)
      (found (find_by_ref ref db.purchases))
  where
    caught : (r : Result (Bool × Db)) → Books (after db r) → Books (after db (catch_duplicate db r))
    caught (ok x) h = h
    caught (err unique_violation) h = h
    caught (err _) h = h

    found : (o : Option (ℕ × TokenPurchase)) → Books (after db (fulfil_found o event db))
    found none = inv
    found (some (id, p)) = elim (Bool-cases (is_completed p.status)) [
      | inl retry ↦ rw (retry, fulfil_found, after) inv
      | inr first ↦ rw (first, fulfil_found, after) (fulfil_write-Books id p event db inv)
    ]

adjust_transaction-Books :
    (user_id : ℕ) (delta : ℤ) (note : Text) (db : Db)
    → Books db
    → Books (after db (adjust_transaction user_id delta note db))
unfolding adjust_transaction adjust_balance credit
adjust_transaction-Books user_id (pos n) note db inv =
    movement-Inv db.accounts db.ledger _ _ inv refl
      (credited_balance (lookup user_id db.accounts) n no_counters)
adjust_transaction-Books user_id (negsuc n) note db inv = elim (debit-Debits user_id (suc n) db) [
  | inl refused ↦ rw (refused, after, ◌>>=◌) inv
  | inr (a, e, enough, debited) ↦
      rw (debited, after, ◌>>=◌)
        (movement-Inv db.accounts db.ledger _ (record a { balance = a.balance - suc n }) inv refl
          (rw (e, funds) (debited_suc a.balance n enough)))
]

adjust-Books :
    (user_id : ℕ) (delta : ℤ) (note : Text) (db : Db)
    → Books db
    → Books (after db (adjust user_id delta note db))
unfolding adjust
adjust-Books user_id delta note db inv = elim (Bool-cases (is_zero delta)) [
  | inl zero_delta ↦ rw (zero_delta, after) inv
  | inr moving ↦ elim (Bool-cases (is_blank note)) [
    | inl blank ↦ rw (moving, blank, after) inv
    | inr noted ↦ rw (moving, noted, after) (adjust_transaction-Books user_id delta note db inv)
  ]
]

-- The calls of the service.
pub data Call : Type 0 where
  gets_balance : ℕ → Call
  sends_tip : TipInput → Call
  responds : ℕ → ℕ → Bool → ℕ → Call
  creates_purchase : ℕ → ℕ → ℕ → Call
  fulfils : ℕ → ℕ → Call
  adjusts : ℕ → ℤ → Text → Call

pub step : Db → Call → Db
step db (gets_balance u) = after db (get_balance u db)
step db (sends_tip input) = after db (send_tip input db)
step db (responds tip u accepted now) = after db (respond_to_offer tip u accepted now db)
step db (creates_purchase u pkg ref) = after db (create_purchase u pkg ref db)
step db (fulfils ref event) = after db (fulfil_purchase ref event db)
step db (adjusts u delta note) = after db (adjust u delta note db)

pub run : Db → List Call → Db
run db [] = db
run db (c ∷ cs) = run (step db c) cs

step-Books : (db : Db) (c : Call) → Books db → Books (step db c)
unfolding step
step-Books db (gets_balance u) = get_balance-Books u db
step-Books db (sends_tip input) = send_tip-Books input db
step-Books db (responds tip u accepted now) = respond_to_offer-Books tip u accepted now db
step-Books db (creates_purchase u pkg ref) = create_purchase-Books u pkg ref db
step-Books db (fulfils ref event) = fulfil_purchase-Books ref event db
step-Books db (adjusts u delta note) = adjust-Books u delta note db

-- Over any calls, failed ones and repeated webhooks included, replaying the ledger gives every
-- balance, and every row holds the balance that the ledger gave up to it.
pub run-Books : (db : Db) (cs : List Call) → Books db → Books (run db cs)
unfolding run
run-Books db [] h = h
run-Books db (c ∷ cs) h = run-Books (step db c) cs (step-Books db c h)
