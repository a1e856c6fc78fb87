-- ===== src/Campaigns/Once.antt =====
-- What a user receives: one grant of a campaign, and one payment for it.
use trip2world.Campaigns.Steps.{
  claims_on, operator_sets, operator_updates, campaign_act, campaign_run, accepted, CampaignSystem,
  CampaignAction, ClaimJob,
}
use trip2world.Campaigns.Types.{CampaignStatus, CampaignDb, Grant, grants_to, Campaign, is_ended}
use trip2world.Tokens.Types.{promo, LedgerKind, LedgerRow}
use trip2world.Campaigns.Service.{UpdateInput, set_status, update_campaign, status_row, update_row}
use trip2world.Campaigns.Claim.{
  reading, checking, reserving, granting, releasing, claimed, failed_claim, claim_step, grant,
  ClaimPhase, reserve, release_slot, has_slot,
}
use trip2world.Prelude.{
  ℕ, ◌≤◌, ◌≡◌, refl, inl, inr, Bool, true, false, ◌&&◌, ◌||◌, Option, none, some, List, [], ◌∷◌,
  arith, ltb, ◌==◌, Bool-cases, is_some, length, filter, any,
}

-- Whether a ledger row is the payment of a campaign to a user.
abbrev pub is_promo : LedgerKind → Bool
is_promo promo = true
is_promo _ = false

abbrev pub paid_by : Option ℕ → ℕ → Bool
paid_by none c = false
paid_by (some d) c = d == c

abbrev pub pays : ℕ → ℕ → LedgerRow → Bool
pays c u r = is_promo r.kind && (paid_by r.campaign_id c && r.user_id == u)

abbrev pub grant_count : ℕ → ℕ → CampaignDb → ℕ
grant_count c u db = length (filter (grants_to c u) db.grants)

abbrev pub payment_count : ℕ → ℕ → CampaignDb → ℕ
payment_count c u db = length (filter (pays c u) db.ledger_db.ledger)

none_granted :
    (c u : ℕ) (gs : List Grant)
    → any (grants_to c u) gs ≡ false
    → length (filter (grants_to c u) gs) ≡ 0
none_granted c u [] h = refl
none_granted c u (g ∷ gs) h = ground (arith, none_granted c u gs)

-- At most one grant, and one payment for each.
abbrev pub Settled : ℕ → ℕ → CampaignDb → Type 0
Settled c u db = (grant_count c u db ≤ 1) × (payment_count c u db ≡ grant_count c u db)

module _ (c u : ℕ) where
  grant-Settled :
      (up : Bool) (id v : ℕ) (seen : Campaign) (db : CampaignDb)
      → Settled c u db
      → Settled c u (grant up id v seen db).1
  unfolding grant
  grant-Settled up id v seen db inv = ground (arith, none_granted c u db.grants)

  reserve-Settled :
      (id : ℕ) (seen : Campaign) (row : Option Campaign) (db : CampaignDb)
      → Settled c u db
      → Settled c u (reserve id seen row db).1
  unfolding reserve
  reserve-Settled id seen none db inv = inv
  reserve-Settled id seen (some row) db inv = elim (Bool-cases (has_slot seen row)) [
    | inl hit ↦ rw hit inv
    | inr miss ↦ rw miss inv
  ]

  release-Settled :
      (up : Bool) (id : ℕ) (row : Option Campaign) (db : CampaignDb)
      → Settled c u db
      → Settled c u (release_slot up id row db)
  unfolding release_slot
  release-Settled up id none db inv = inv
  release-Settled up id (some row) db inv = elim (Bool-cases (up && ltb 0 row.grants_issued)) [
    | inl hit ↦ rw hit inv
    | inr miss ↦ rw miss inv
  ]

  claim_step-Settled :
      (up : Bool) (id v : ℕ) (ph : ClaimPhase) (db : CampaignDb)
      → Settled c u db
      → Settled c u (claim_step up id v ph db).1
  unfolding claim_step
  claim_step-Settled up id v reading db inv = inv
  claim_step-Settled up id v (checking seen) db inv = inv
  claim_step-Settled up id v (reserving seen) db inv =
      reserve-Settled id seen (db.campaigns id) db inv
  claim_step-Settled up id v (granting seen) db inv = grant-Settled up id v seen db inv
  claim_step-Settled up id v (releasing threw) db inv =
      release-Settled up id (db.campaigns id) db inv
  claim_step-Settled up id v (claimed r) db inv = inv
  claim_step-Settled up id v failed_claim db inv = inv

  status-Settled :
      (row : Option Campaign) (id : ℕ) (s : CampaignStatus) (db : CampaignDb)
      → Settled c u db
      → Settled c u (accepted (status_row row id s db) db)
  unfolding status_row
  status-Settled none id s db inv = inv
  status-Settled (some row) id s db inv = elim (Bool-cases (is_ended row.status)) [
    | inl hit ↦ rw hit inv
    | inr miss ↦ rw miss inv
  ]

  update-Settled :
      (row : Option Campaign) (id : ℕ) (i : UpdateInput) (db : CampaignDb)
      → Settled c u db
      → Settled c u (accepted (update_row row id i db) db)
  unfolding update_row
  update-Settled none id i db inv = inv
  update-Settled (some row) id i db inv =
      elim (Bool-cases
        (ltb 0 row.grants_issued && (is_some i.set_tokens || is_some i.set_audience))) [
          | inl hit ↦ rw hit inv
          | inr miss ↦ rw miss inv
        ]

  module _ (jobs : ℕ → ClaimJob) where
    campaign_act-Settled :
        (a : CampaignAction) (y : CampaignSystem)
        → Settled c u y.db
        → Settled c u (campaign_act jobs a y).db
    unfolding campaign_act set_status update_campaign
    campaign_act-Settled (claims_on i up) y inv =
        claim_step-Settled up (jobs i).job_campaign (jobs i).job_user (y.claim_phase i) y.db inv
    campaign_act-Settled (operator_sets id s) y inv =
        status-Settled (y.db.campaigns id) id s y.db inv
    campaign_act-Settled (operator_updates id i) y inv =
        update-Settled (y.db.campaigns id) id i y.db inv

    -- Whatever claims of whatever users interleave, repeated ones and failing ones included, and
    -- whatever the operator changes in between, a user has at most one grant of a campaign, and the
    -- ledger has exactly one payment for it, and none without it, if that held at the start.
    pub campaign_run-Settled :
        (actions : List CampaignAction) (y : CampaignSystem)
        → Settled c u y.db
        → Settled c u (campaign_run jobs actions y).db
    unfolding campaign_run
    campaign_run-Settled [] y inv = inv
    campaign_run-Settled (a ∷ actions) y inv =
        campaign_run-Settled actions (campaign_act jobs a y) (campaign_act-Settled a y inv)
