-- ===== src/Campaigns/Claim.antt =====
-- `claim`, one statement to the database at a time: a repeat of the same claim, another user's claim or
-- an operator's change can come between any two. The transaction is one statement.
-- Where a claim stands; it holds the campaign as it read it.
use trip2world.Prelude.Int.{pos}
use trip2world.Tokens.Types.{TokenAccount, LedgerRow, Db, promo}
use trip2world.Campaigns.Types.{Campaign, CampaignDb, GrantResult, is_active, has_grant}
use trip2world.Prelude.Dict.{lookup, insert}
use trip2world.Prelude.{
  ℕ, zero, suc, ◌+◌, ◌-◌, Bool, true, false, not, ◌&&◌, ◌||◌, Option, none, some, ◌∷◌, ltb,
  if◌then◌else◌, is_some, get_or, take, at_key,
}

pub data ClaimPhase : Type 0 where
  reading : ClaimPhase
  checking reserving granting : Campaign → ClaimPhase
  releasing : Bool → ClaimPhase
  claimed : Option GrantResult → ClaimPhase
  failed_claim : ClaimPhase

-- Number.MAX_SAFE_INTEGER
abbrev pub max_safe_integer : ℕ
max_safe_integer = 9007199254740991

abbrev pub set_issued : ℕ → Campaign → ℕ → CampaignDb → CampaignDb
set_issued id row n db = record db {
  campaigns = at_key db.campaigns id (some (record row { grants_issued = n }));
}

-- The condition of the reservation, on the row as it is and the cap as it was read.
abbrev pub has_slot : Campaign → Campaign → Bool
has_slot seen row =
    is_active row.status
    && (not (is_some row.max_grants)
        || ltb row.grants_issued (get_or seen.max_grants max_safe_integer))

unfoldable pub reserve : ℕ → Campaign → Option Campaign → CampaignDb → ClaimPhase × CampaignDb
reserve id seen none db = (claimed none, db)
reserve id seen (some row) db =
    if has_slot seen row
    then (granting seen, set_issued id row (suc row.grants_issued) db)
    else (claimed none, db)

unfoldable pub release_slot : Bool → ℕ → Option Campaign → CampaignDb → CampaignDb
release_slot up id none db = db
release_slot up id (some row) db =
    if up && ltb 0 row.grants_issued then set_issued id row (row.grants_issued - 1) db else db

abbrev pub promo_row : ℕ → ℕ → Campaign → ℕ → LedgerRow
promo_row id u seen balance_after = record {
  user_id = u;
  delta = pos seen.tokens;
  kind = promo;
  balance_after = balance_after;
  counterparty_id = none;
  tip_id = none;
  purchase_id = none;
  campaign_id = some id;
  note = some (take 200 seen.name);
}

-- `tokenAccount.upsert`
abbrev pub promoted : Option TokenAccount → ℕ → TokenAccount
promoted none n = record { balance = n; lifetime_earned = n; lifetime_purchased = 0 }
promoted (some a) n = record a { balance = a.balance + n; lifetime_earned = a.lifetime_earned + n }

abbrev pub pay : ℕ → ℕ → Campaign → Db → Db
pay id u seen db =
    let a = promoted (lookup u db.accounts) seen.tokens in
    record db {
      accounts = insert u a db.accounts;
      ledger = promo_row id u seen a.balance ∷ db.ledger;
    }

-- The transaction: it breaks the unique index, fails for another reason, or is committed.
unfoldable pub grant : Bool → ℕ → ℕ → Campaign → CampaignDb → ClaimPhase × CampaignDb
grant up id u seen db =
    if not up
    then (releasing true, db)
    else (if has_grant id u db then (releasing false, db) else (
      claimed (
          some
            (record { campaign_id = id; campaign_name = seen.name; granted_tokens = seen.tokens })),
      record db {
        grants =
            record { grant_campaign = id; grant_user = u; grant_tokens = seen.tokens } ∷ db.grants;
        ledger_db = pay id u seen db.ledger_db;
      },
    ))

found : Option Campaign → ClaimPhase
found none = claimed none
found (some seen) = checking seen

-- One statement of a claim of campaign `id` for user `u`; `up` is whether the database carries out a
-- write that is tried in a `try` block.
unfoldable pub claim_step : Bool → ℕ → ℕ → ClaimPhase → CampaignDb → ClaimPhase × CampaignDb
unfolding found
claim_step up id u reading db = (found (db.campaigns id), db)
claim_step up id u (checking seen) db =
    (if has_grant id u db then claimed none else reserving seen, db)
claim_step up id u (reserving seen) db = reserve id seen (db.campaigns id) db
claim_step up id u (granting seen) db = grant up id u seen db
claim_step up id u (releasing threw) db =
    (if threw then failed_claim else claimed none, release_slot up id (db.campaigns id) db)
claim_step up id u (claimed r) db = (claimed r, db)
claim_step up id u failed_claim db = (failed_claim, db)

unfoldable pub claim_steps : ℕ → Bool → ℕ → ℕ → ClaimPhase × CampaignDb → ClaimPhase × CampaignDb
claim_steps zero up id u (ph, db) = (ph, db)
claim_steps (suc n) up id u (ph, db) = claim_steps n up id u (claim_step up id u ph db)

-- A claim that runs by itself has ended after five statements.
unfoldable pub claim : Bool → ℕ → ℕ → CampaignDb → ClaimPhase × CampaignDb
claim up id u db = claim_steps 5 up id u (reading, db)
