-- ===== src/Tokens/Transfers.antt =====
-- What a tip moves, and the errors of a tip.
use trip2world.Prelude.{
  ℕ, suc, ◌+◌, ◌-◌, ◌≤◌, ◌<◌, ◌≡◌, refl, ap, ◌∙◌, ◌≢◌, inl, inr, some, arith, ◌==◌, if◌then◌else◌,
  Option-cases,
}
use trip2world.Prelude.Dict.{Dict, lookup, insert, lookup-insert}
use trip2world.Prelude.Int.{◌≤ℤ◌, pos}
use trip2world.Tokens.Types.{
  TokenAccount, Db, ok, err, ◌>>=◌, insufficient_funds, invalid_amount, self_tip,
}
use trip2world.Tokens.Accounts.{debit, debit-Debits, credit, credited}
use trip2world.Tokens.Service.{TipInput, transfer_tip, send_tip, send_tip_amount}
use trip2world.Tokens.Replay.{balance_of}

debit_enough :
    (user_id n : ℕ) (a : TokenAccount) (db : Db)
    → lookup user_id db.accounts ≡ some a
    → n ≤ a.balance
    → debit user_id n db ≡ err insufficient_funds
    → ⊥
unfolding debit
debit_enough user_id n a db e enough refused = ground arith

abbrev paid : TokenAccount → ℕ → TokenAccount
paid a n = record a { balance = a.balance - n }

abbrev tip_accounts : TipInput → ℕ → TokenAccount → Dict TokenAccount → Dict TokenAccount
tip_accounts input n a accounts =
    let debited = insert input.from_user_id (paid a n) accounts in
    insert input.to_user_id
      (credited (lookup input.to_user_id debited) n (record { earned = n; purchased = 0 })) debited

lookup-tip_accounts :
    (input : TipInput) (n : ℕ) (a : TokenAccount) (accounts : Dict TokenAccount) (u : ℕ)
    → input.from_user_id ≢ input.to_user_id
    → lookup u (tip_accounts input n a accounts) ≡ (
        if input.to_user_id == u
        then some
            (credited (lookup input.to_user_id accounts) n (record { earned = n; purchased = 0 }))
        else if input.from_user_id == u
        then some (paid a n)
        else lookup u accounts)
lookup-tip_accounts input n a accounts u other =
    rw
      (
        lookup-insert u input.to_user_id _ (insert input.from_user_id (paid a n) accounts),
        lookup-insert u input.from_user_id (paid a n) accounts,
        lookup-insert input.to_user_id input.from_user_id (paid a n) accounts,
      )
      (ground arith)

transfer_tip_ok :
    (input : TipInput) (n : ℕ) (a : TokenAccount) (db : Db)
    → lookup input.from_user_id db.accounts ≡ some a
    → n ≤ a.balance
    → (db' : Db) × (transfer_tip input n db ≡ ok ((db.next_id, a.balance - n), db'))
      × (db'.accounts ≡ tip_accounts input n a db.accounts)
unfolding transfer_tip credit
transfer_tip_ok input n a db e enough = elim (debit-Debits input.from_user_id n db) [
  | inl refused ↦ absurd (debit_enough input.from_user_id n a db e enough refused)
  | inr (b, f, _, debited) ↦
      let same : b ≡ a = cc (e, f) in rw (debited, ◌>>=◌, same) (_, refl, refl)
]

module _ (input : TipInput) (n : ℕ) (db : Db) (amount : input.tokens ≡ pos (suc n))
    (other : input.from_user_id ≢ input.to_user_id) where
  send_tip-transfer_tip : send_tip input db ≡ transfer_tip input (suc n) db
  unfolding send_tip send_tip_amount
  send_tip-transfer_tip = ground arith

  -- The tip goes through whenever the sender holds the amount; then the sender has that much less,
  -- the recipient that much more, and nobody else's account changes.
  pub send_tip_moves :
      suc n ≤ balance_of input.from_user_id db.accounts
      → (db' : Db) × (send_tip input db
          ≡ ok ((db.next_id, balance_of input.from_user_id db.accounts - suc n), db'))
        × (balance_of input.from_user_id db'.accounts + suc n
            ≡ balance_of input.from_user_id db.accounts)
        × (balance_of input.to_user_id db'.accounts
            ≡ balance_of input.to_user_id db.accounts + suc n)
        × ((u : ℕ)
            → u ≢ input.from_user_id
            → u ≢ input.to_user_id
            → lookup u db'.accounts ≡ lookup u db.accounts)
  send_tip_moves enough = elim (Option-cases (lookup input.from_user_id db.accounts)) [
    | inl absent ↦ absurd (ground arith)
    | inr (a, e) ↦
        let (db', sent, written) = transfer_tip_ok input (suc n) a db e (ground arith) in
        let after_tip = λ (u : ℕ).
          ap (lookup u) written ∙ lookup-tip_accounts input (suc n) a db.accounts u other in
        (
          db',
          rw e (send_tip-transfer_tip ∙ sent),
          ground (arith, after_tip input.from_user_id),
          ground (arith, after_tip input.to_user_id),
          λ u f t. ground (arith, after_tip u),
        )
  ]

  -- Of more than the sender holds nothing moves.
  pub send_tip_overdraft :
      balance_of input.from_user_id db.accounts < suc n → send_tip input db ≡ err insufficient_funds
  unfolding transfer_tip debit
  send_tip_overdraft short = rw send_tip-transfer_tip (ground arith)

-- To oneself, or of no positive amount, a tip is refused before anything is written.
pub send_tip_refused :
    (input : TipInput) (db : Db)
    → (input.from_user_id ≡ input.to_user_id → send_tip input db ≡ err self_tip)
      × (input.from_user_id ≢ input.to_user_id
          → ¬ (pos 1 ≤ℤ input.tokens)
          → send_tip input db ≡ err invalid_amount)
unfolding send_tip send_tip_amount
send_tip_refused input db = (ground arith, ground arith)
