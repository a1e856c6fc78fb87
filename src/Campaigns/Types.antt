-- ===== src/Campaigns/Types.antt =====
-- The rows of the campaign tables. The token tables are those of the ledger.
use trip2world.Tokens.Types.{Db}
use trip2world.Prelude.{ℕ, Bool, true, false, ◌&&◌, Option, List, ◌==◌, any, Text}

pub data CampaignStatus : Type 0 where
  draft active paused ended : CampaignStatus

pub data CampaignAudience : Type 0 where
  new_users all_users : CampaignAudience

pub record Campaign : Type 0 where
  pub name : Text
  pub description : Option Text
  pub tokens : ℕ
  pub audience : CampaignAudience
  pub status : CampaignStatus
  pub starts_at : Option ℕ
  pub ends_at : Option ℕ
  pub created_at : ℕ
  pub created_by_id : ℕ
  pub max_grants : Option ℕ
  pub grants_issued : ℕ
  pub requires_verified_email : Bool

pub record Grant : Type 0 where
  pub grant_campaign : ℕ
  pub grant_user : ℕ
  pub grant_tokens : ℕ

-- `order` lists the ids by creation.
pub record CampaignDb : Type 0 where
  pub campaigns : ℕ → Option Campaign
  pub order : List ℕ
  pub grants : List Grant
  pub ledger_db : Db

pub record GrantResult : Type 0 where
  pub campaign_id : ℕ
  pub campaign_name : Text
  pub granted_tokens : ℕ

abbrev pub is_active : CampaignStatus → Bool
is_active active = true
is_active _ = false

abbrev pub is_ended : CampaignStatus → Bool
is_ended ended = true
is_ended _ = false

-- Whether a grant is that of a campaign to a user: the unique index.
abbrev pub grants_to : ℕ → ℕ → Grant → Bool
grants_to c u g = g.grant_campaign == c && g.grant_user == u

abbrev pub has_grant : ℕ → ℕ → CampaignDb → Bool
has_grant c u db = any (grants_to c u) db.grants
