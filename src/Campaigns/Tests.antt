-- ===== src/Campaigns/Tests.antt =====
-- The theorems about campaigns: two claims of one user that race, and an end in between.
use trip2world.Prelude.{
  ℕ, refl, true, false, none, some, List, [], ◌∷◌, arith, ◌==◌, if◌then◌else◌, codes,
}
use trip2world.Campaigns.Claim.{reading}
use trip2world.Campaigns.Once.{Settled, campaign_run-Settled}
use trip2world.Campaigns.Steps.{
  CampaignSystem, ClaimJob, CampaignAction, claims_on, campaign_run, operator_sets,
}
use trip2world.Campaigns.Types.{ended, active, all_users, Campaign}

abbrev welcome : Campaign
welcome = record {
  name = codes "Welcome";
  description = none;
  tokens = 50;
  audience = all_users;
  status = active;
  starts_at = none;
  ends_at = none;
  created_at = 0;
  created_by_id = 9;
  max_grants = some 1;
  grants_issued = 0;
  requires_verified_email = false;
}

abbrev start : CampaignSystem
start = record {
  db = record {
    campaigns = λ id. if id == 7 then some welcome else none;
    order = 7 ∷ [];
    grants = [];
    ledger_db = record {
      accounts = [];
      ledger = [];
      tips = [];
      packages = [];
      purchases = [];
      next_id = 0;
    };
  };
  claim_phase = λ i. reading;
}

abbrev same_claim : ℕ → ClaimJob
same_claim i = record { job_campaign = 7; job_user = 1 }

abbrev race : List CampaignAction
race =
    claims_on 0 true
    ∷ claims_on 1 true
    ∷ claims_on 0 true
    ∷ claims_on 1 true
    ∷ claims_on 0 true
    ∷ claims_on 1 true
    ∷ claims_on 0 true
    ∷ operator_sets 7 ended
    ∷ claims_on 1 true
    ∷ []

campaign_run-Settled_example : Settled 7 1 (campaign_run same_claim race start).db
campaign_run-Settled_example = campaign_run-Settled 7 1 same_claim race start (omega arith, refl)

abbrev closed : CampaignSystem
closed = record start {
  db = record start.db {
    campaigns = λ id. if id == 7 then some (record welcome { status = ended }) else none;
  };
}
