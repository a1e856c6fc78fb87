-- ===== src/Campaigns/Steps.antt =====
-- Claims that interleave with each other and with the operator's changes.
use trip2world.Campaigns.Types.{CampaignStatus, CampaignDb}
use trip2world.Campaigns.Service.{changed, AdminResult, UpdateInput, set_status, update_campaign}
use trip2world.Campaigns.Claim.{claim_step, ClaimPhase}
use trip2world.Prelude.{ℕ, Bool, List, [], ◌∷◌, at_key}

pub data CampaignAction : Type 0 where
  claims_on : ℕ → Bool → CampaignAction
  operator_sets : ℕ → CampaignStatus → CampaignAction
  operator_updates : ℕ → UpdateInput → CampaignAction

-- The claims, each with its campaign and its user.
pub record ClaimJob : Type 0 where
  pub job_campaign : ℕ
  pub job_user : ℕ

pub record CampaignSystem : Type 0 where
  pub db : CampaignDb
  pub claim_phase : ℕ → ClaimPhase

abbrev pub accepted : AdminResult → CampaignDb → CampaignDb
accepted (changed db') db = db'
accepted _ db = db

unfoldable pub campaign_act : (ℕ → ClaimJob) → CampaignAction → CampaignSystem → CampaignSystem
campaign_act jobs (claims_on i up) y =
    let r = claim_step up (jobs i).job_campaign (jobs i).job_user (y.claim_phase i) y.db in
    record { db = r.1; claim_phase = at_key y.claim_phase i r.0 }
campaign_act jobs (operator_sets id s) y = record y { db = accepted (set_status id s y.db) y.db }
campaign_act jobs (operator_updates id input) y = record y {
  db = accepted (update_campaign id input y.db) y.db;
}

unfoldable pub campaign_run : (ℕ → ClaimJob) → List CampaignAction → CampaignSystem → CampaignSystem
campaign_run jobs [] y = y
campaign_run jobs (a ∷ actions) y = campaign_run jobs actions (campaign_act jobs a y)
