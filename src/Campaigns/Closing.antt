-- ===== src/Campaigns/Closing.antt =====
-- A campaign that has ended gives nothing more.
use trip2world.Campaigns.Steps.{
  claims_on, operator_sets, operator_updates, campaign_act, campaign_run, accepted, CampaignSystem,
  CampaignAction, ClaimJob,
}
use trip2world.Campaigns.Types.{CampaignStatus, CampaignDb, Campaign, is_ended}
use trip2world.Campaigns.Service.{UpdateInput, set_status, update_campaign, status_row, update_row}
use trip2world.Campaigns.Claim.{
  reading, checking, reserving, granting, releasing, claimed, failed_claim, claim_step, grant,
  ClaimPhase, reserve, release_slot, has_slot,
}
use trip2world.Prelude.{
  ℕ, ◌≤◌, ◌≡◌, refl, ap, ◌∙◌, subst, inl, inr, Bool, true, false, ◌&&◌, ◌||◌, Option, none, some,
  List, [], ◌∷◌, arith, ltb, ◌==◌, Bool-cases, is_some,
}

-- A campaign that has ended, with so many slots given at most.
abbrev pub Closed : ℕ → Option Campaign → Type 0
Closed n none = ⊥
Closed n (some c) = (is_ended c.status ≡ true) × (c.grants_issued ≤ n)

module _ (id n : ℕ) where
  reserve-Closed :
      (k : ℕ) (seen : Campaign) (row : Option Campaign) (db : CampaignDb)
      → db.campaigns k ≡ row
      → Closed n (db.campaigns id)
      → Closed n ((reserve k seen row db).1.campaigns id)
  unfolding reserve
  reserve-Closed k seen none db e inv = inv
  reserve-Closed k seen (some row) db e inv = elim (Bool-cases (id == k)) [
    | inl same ↦
        let j : id ≡ k = ground arith in
        let shut : Closed n (some row) = subst (λ o. Closed n o) (ap db.campaigns j ∙ e) inv in
        let full : has_slot seen row ≡ false = ground (arith, shut) in rw full inv
    | inr other ↦ elim (Bool-cases (has_slot seen row)) [
      | inl hit ↦ rw (hit, other) inv
      | inr miss ↦ rw miss inv
    ]
  ]

  release-Closed :
      (up : Bool) (k : ℕ) (row : Option Campaign) (db : CampaignDb)
      → db.campaigns k ≡ row
      → Closed n (db.campaigns id)
      → Closed n ((release_slot up k row db).campaigns id)
  unfolding release_slot
  release-Closed up k none db e inv = inv
  release-Closed up k (some row) db e inv = elim (Bool-cases (up && ltb 0 row.grants_issued)) [
    | inr miss ↦ rw miss inv
    | inl hit ↦ elim (Bool-cases (id == k)) [
      | inl same ↦
          let j : id ≡ k = ground arith in
          let shut : Closed n (some row) = subst (λ o. Closed n o) (ap db.campaigns j ∙ e) inv in
          rw (hit, same) (shut.0, omega (arith, shut.1))
      | inr other ↦ rw (hit, other) inv
    ]
  ]

  grant-Closed :
      (up : Bool) (k v : ℕ) (seen : Campaign) (db : CampaignDb)
      → (grant up k v seen db).1.campaigns ≡ db.campaigns
  unfolding grant
  grant-Closed up k v seen db = ground arith

  claim_step-Closed :
      (up : Bool) (k v : ℕ) (ph : ClaimPhase) (db : CampaignDb)
      → Closed n (db.campaigns id)
      → Closed n ((claim_step up k v ph db).1.campaigns id)
  unfolding claim_step
  claim_step-Closed up k v reading db inv = inv
  claim_step-Closed up k v (checking seen) db inv = inv
  claim_step-Closed up k v (reserving seen) db inv =
      reserve-Closed k seen (db.campaigns k) db refl inv
  claim_step-Closed up k v (granting seen) db inv = rw (grant-Closed up k v seen db) inv
  claim_step-Closed up k v (releasing threw) db inv =
      release-Closed up k (db.campaigns k) db refl inv
  claim_step-Closed up k v (claimed r) db inv = inv
  claim_step-Closed up k v failed_claim db inv = inv

  status-Closed :
      (k : ℕ) (s : CampaignStatus) (row : Option Campaign) (db : CampaignDb)
      → db.campaigns k ≡ row
      → Closed n (db.campaigns id)
      → Closed n ((accepted (status_row row k s db) db).campaigns id)
  unfolding status_row
  status-Closed k s none db e inv = inv
  status-Closed k s (some row) db e inv = elim (Bool-cases (is_ended row.status)) [
    | inl hit ↦ rw hit inv
    | inr miss ↦ elim (Bool-cases (id == k)) [
      | inl same ↦
          let j : id ≡ k = ground arith in
          let shut : Closed n (some row) = subst (λ o. Closed n o) (ap db.campaigns j ∙ e) inv in
          absurd (ground (arith, shut, miss))
      | inr other ↦ rw (miss, other) inv
    ]
  ]

  update-Closed :
      (k : ℕ) (i : UpdateInput) (row : Option Campaign) (db : CampaignDb)
      → db.campaigns k ≡ row
      → Closed n (db.campaigns id)
      → Closed n ((accepted (update_row row k i db) db).campaigns id)
  unfolding update_row
  update-Closed k i none db e inv = inv
  update-Closed k i (some row) db e inv =
      elim (Bool-cases
        (ltb 0 row.grants_issued && (is_some i.set_tokens || is_some i.set_audience))) [
          | inl hit ↦ rw hit inv
          | inr miss ↦ elim (Bool-cases (id == k)) [
            | inl same ↦
                let j : id ≡ k = ground arith in
                rw (miss, same) (subst (λ o. Closed n o) (ap db.campaigns j ∙ e) inv)
            | inr other ↦ rw (miss, other) inv
          ]
        ]

  module _ (jobs : ℕ → ClaimJob) where
    campaign_act-Closed :
        (a : CampaignAction) (y : CampaignSystem)
        → Closed n (y.db.campaigns id)
        → Closed n ((campaign_act jobs a y).db.campaigns id)
    unfolding campaign_act set_status update_campaign
    campaign_act-Closed (claims_on i up) y inv =
        claim_step-Closed up (jobs i).job_campaign (jobs i).job_user (y.claim_phase i) y.db inv
    campaign_act-Closed (operator_sets k s) y inv =
        status-Closed k s (y.db.campaigns k) y.db refl inv
    campaign_act-Closed (operator_updates k i) y inv =
        update-Closed k i (y.db.campaigns k) y.db refl inv

    -- An ended campaign stays ended and gives no further slot, whatever claims are under way and
    -- whatever the operator tries.
    pub campaign_run-Closed :
        (actions : List CampaignAction) (y : CampaignSystem)
        → Closed n (y.db.campaigns id)
        → Closed n ((campaign_run jobs actions y).db.campaigns id)
    unfolding campaign_run
    campaign_run-Closed [] y inv = inv
    campaign_run-Closed (a ∷ actions) y inv =
        campaign_run-Closed actions (campaign_act jobs a y) (campaign_act-Closed a y inv)
