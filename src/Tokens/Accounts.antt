-- ===== src/Tokens/Accounts.antt =====
-- `debit` and `credit`, the two statements that move a balance, and `getBalance`.
use trip2world.Prelude.{
  ℕ, ◌+◌, ◌-◌, ◌≤◌, ◌≡◌, ◌⊎◌, inl, inr, Option, none, some, arith, leb, if◌then◌else◌, Bool-cases,
  Option-cases,
}
use trip2world.Prelude.Dict.{lookup, insert}
use trip2world.Tokens.Types.{TokenAccount, Tx, err, ok, insufficient_funds, Db}

-- `UPDATE ... SET balance = balance - n WHERE user = ? AND balance >= n`; no row, no funds.
unfoldable pub debit : ℕ → ℕ → Tx ℕ
debit user_id amount db = elim (lookup user_id db.accounts) [
  | none ↦ err insufficient_funds
  | some a ↦
      if leb amount a.balance
      then ok (
        a.balance - amount,
        record db {
          accounts = insert user_id (record a { balance = a.balance - amount }) db.accounts;
        },
      )
      else err insufficient_funds
]

-- `counters.earned` and `counters.purchased`, 0 where they are left out.
pub record Counters : Type 0 where
  pub earned : ℕ
  pub purchased : ℕ

abbrev pub no_counters : Counters
no_counters = record { earned = 0; purchased = 0 }

abbrev pub credited : Option TokenAccount → ℕ → Counters → TokenAccount
credited none amount c = record {
  balance = amount;
  lifetime_earned = c.earned;
  lifetime_purchased = c.purchased;
}
credited (some a) amount c = record {
  balance = a.balance + amount;
  lifetime_earned = a.lifetime_earned + c.earned;
  lifetime_purchased = a.lifetime_purchased + c.purchased;
}

unfoldable pub credit : ℕ → ℕ → Counters → Tx ℕ
credit user_id amount counters db =
    let a = credited (lookup user_id db.accounts) amount counters in
    ok (a.balance, record db { accounts = insert user_id a db.accounts })

abbrev pub empty_account : TokenAccount
empty_account = record { balance = 0; lifetime_earned = 0; lifetime_purchased = 0 }

unfoldable pub get_balance : ℕ → Tx TokenAccount
get_balance user_id db = elim (lookup user_id db.accounts) [
  | none ↦ ok (empty_account, record db { accounts = insert user_id empty_account db.accounts })
  | some a ↦ ok (a, db)
]

-- A debit is refused, or takes the amount from an account that holds it.
abbrev pub Debits : ℕ → ℕ → Db → Type 0
Debits user_id amount db =
    (debit user_id amount db ≡ err insufficient_funds)
    ⊎ ((a : TokenAccount) × (lookup user_id db.accounts ≡ some a)
        × (amount ≤ a.balance)
        × (debit user_id amount db
            ≡ ok (
              a.balance - amount,
              record db {
                accounts = insert user_id (record a { balance = a.balance - amount }) db.accounts;
              },
            )))

pub debit-Debits : (user_id amount : ℕ) (db : Db) → Debits user_id amount db
unfolding debit
debit-Debits user_id amount db = elim (Option-cases (lookup user_id db.accounts)) [
  | inl e ↦ inl (ground arith)
  | inr (a, e) ↦ elim (Bool-cases (leb amount a.balance)) [
    | inl enough ↦ inr (a, e, ground arith, ground arith)
    | inr short ↦ inl (ground arith)
  ]
]
