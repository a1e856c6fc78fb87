-- ===== src/Campaigns/Service.antt =====
-- Who gets a grant, and the operator's changes.
use trip2world.Campaigns.Claim.{claim, claimed}
use trip2world.Campaigns.Types.{
  Campaign, GrantResult, CampaignDb, CampaignAudience, CampaignStatus, is_active, is_ended, draft,
  new_users, all_users,
}
use trip2world.Prelude.{
  ℕ, Bool, true, false, not, ◌&&◌, ◌||◌, Option, none, some, List, [], ◌∷◌, ◌++◌, ltb, leb,
  if◌then◌else◌, is_some, get_or, Text, at_key,
}

pub record UserRow : Type 0 where
  pub user_created_at : ℕ
  pub email_verified : Bool
  pub deleted : Bool

-- `startsAt: null` or not after now, and `endsAt` likewise.
abbrev pub within : ℕ → Campaign → Bool
within now c = leb (get_or c.starts_at 0) now && leb now (get_or c.ends_at now)

-- The campaigns that could grant, as they are read, oldest first.
unfoldable pub live_campaigns : ℕ → List ℕ → (ℕ → Option Campaign) → List (ℕ × Campaign)
live_campaigns now [] rows = []
live_campaigns now (id ∷ ids) rows = keep_live (rows id) (live_campaigns now ids rows)
  where
    keep_live : Option Campaign → List (ℕ × Campaign) → List (ℕ × Campaign)
    keep_live none rest = rest
    keep_live (some c) rest = if is_active c.status && within now c then (id, c) ∷ rest else rest

-- The `continue`s of the loop.
unfoldable pub qualifies : UserRow → Campaign → Bool
qualifies user c =
    not (c.requires_verified_email && not user.email_verified)
    && (cutoff_passed c.audience && not (spent c.max_grants))
  where
    cutoff_passed : CampaignAudience → Bool
    cutoff_passed new_users = leb (get_or c.starts_at c.created_at) user.user_created_at
    cutoff_passed all_users = true

    spent : Option ℕ → Bool
    spent none = false
    spent (some m) = leb m c.grants_issued

-- The loop; a claim that throws ends it, and what was granted before is not reported.
unfoldable pub apply_loop :
    Bool
    → ℕ
    → UserRow
    → List GrantResult
    → List (ℕ × Campaign)
    → CampaignDb
    → List GrantResult × CampaignDb
apply_loop up u user granted [] db = (granted, db)
apply_loop up u user granted ((id, c) ∷ live) db =
    let (ph, db') = if qualifies user c then claim up id u db else (claimed none, db) in
    elim ph [
      | claimed (some r) ↦ apply_loop up u user (granted ++ (r ∷ [])) live db'
      | claimed none ↦ apply_loop up u user granted live db'
      | _ ↦ ([], db')
    ]

unfoldable pub apply_eligible :
    Bool → ℕ → ℕ → Option UserRow → CampaignDb → List GrantResult × CampaignDb
apply_eligible up now u none db = ([], db)
apply_eligible up now u (some user) db =
    if user.deleted
    then ([], db)
    else apply_loop up u user [] (live_campaigns now db.order db.campaigns) db

pub record CreateInput : Type 0 where
  pub new_name : Text
  pub new_description : Option Text
  pub new_tokens : ℕ
  pub new_audience : CampaignAudience
  pub new_starts_at : Option ℕ
  pub new_ends_at : Option ℕ
  pub new_max_grants : Option ℕ
  pub new_requires_verified_email : Option Bool

-- Always DRAFT; `id` is the fresh id of the row.
unfoldable pub create_campaign : ℕ → ℕ → ℕ → CreateInput → CampaignDb → CampaignDb
create_campaign id now created_by input db = record db {
  order = db.order ++ (id ∷ []);
  campaigns = at_key db.campaigns id (
      some (record {
        name = input.new_name;
        description = input.new_description;
        tokens = input.new_tokens;
        audience = input.new_audience;
        status = draft;
        starts_at = input.new_starts_at;
        ends_at = input.new_ends_at;
        created_at = now;
        created_by_id = created_by;
        max_grants = input.new_max_grants;
        grants_issued = 0;
        requires_verified_email = get_or input.new_requires_verified_email true;
      }));
}

-- A field that is `undefined` is `none`; one that may be set to null is an option of an option.
pub record UpdateInput : Type 0 where
  pub set_name : Option Text
  pub set_description : Option (Option Text)
  pub set_tokens : Option ℕ
  pub set_audience : Option CampaignAudience
  pub set_starts_at : Option (Option ℕ)
  pub set_ends_at : Option (Option ℕ)
  pub set_max_grants : Option (Option ℕ)
  pub set_requires_verified_email : Option Bool

-- What an operator's call answers: null, an error, or the change.
pub data AdminResult : Type 0 where
  no_campaign refused : AdminResult
  changed : CampaignDb → AdminResult

abbrev pub updated : UpdateInput → Campaign → Campaign
updated i c = record c {
  name = get_or i.set_name c.name;
  description = get_or i.set_description c.description;
  tokens = get_or i.set_tokens c.tokens;
  audience = get_or i.set_audience c.audience;
  starts_at = get_or i.set_starts_at c.starts_at;
  ends_at = get_or i.set_ends_at c.ends_at;
  max_grants = get_or i.set_max_grants c.max_grants;
  requires_verified_email = get_or i.set_requires_verified_email c.requires_verified_email;
}

unfoldable pub update_row : Option Campaign → ℕ → UpdateInput → CampaignDb → AdminResult
update_row none id i db = no_campaign
update_row (some c) id i db =
    if ltb 0 c.grants_issued && (is_some i.set_tokens || is_some i.set_audience)
    then refused
    else changed (record db { campaigns = at_key db.campaigns id (some (updated i c)) })

unfoldable pub update_campaign : ℕ → UpdateInput → CampaignDb → AdminResult
update_campaign id i db = update_row (db.campaigns id) id i db

unfoldable pub status_row : Option Campaign → ℕ → CampaignStatus → CampaignDb → AdminResult
status_row none id s db = no_campaign
status_row (some c) id s db =
    if is_ended c.status
    then refused
    else changed (record db { campaigns = at_key db.campaigns id (some (record c { status = s })) })

unfoldable pub set_status : ℕ → CampaignStatus → CampaignDb → AdminResult
set_status id s db = status_row (db.campaigns id) id s db
