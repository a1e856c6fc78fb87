-- ===== src/Accounts/Registration.antt =====
-- `register` of AuthService, without the profile and the preferences of the new user.
use trip2world.Prelude.{
  ℕ, ◌+◌, ◌*◌, ◌<◌, ◌≡◌, refl, ap, ◌∙◌, inl, inr, Bool, true, false, not, ◌||◌, Option, none, some,
  List, ◌∷◌, arith, leb, ◌==◌, if◌then◌else◌, Bool-cases, any, Text, text_eq, includes_text, at_key,
  ==_refl,
}
use trip2world.Privacy.Age.{Day, meets_minimum_age}
use trip2world.Accounts.Auth.{Crypto, Draw}
use trip2world.Accounts.Recovery.{verify_email, verified, check_token, find_token, promote, confirm}
use trip2world.Accounts.Jobs.{on_row}
use trip2world.Accounts.Types.{
  AccountDb, User, Reply, ok, refused, ApiError, registration_closed, underage, unsupported_country,
  rate_limited, conflict, user, active, pending_verification, VerificationToken, email_verification,
  registered, audit,
}

pub record RegisterInput : Type 0 where
  pub new_email : ℕ
  pub new_username : Text
  pub born : Option Day
  pub home : Text

pub record SystemSettings : Type 0 where
  pub registration_open : Bool
  pub minimum_age : ℕ
  pub enabled_countries : Option (List Text)
  pub require_email_verification : Bool

abbrev pub country_enabled : Option (List Text) → Text → Bool
country_enabled none home = true
country_enabled (some countries) home = includes_text countries home

-- `recent` is the number of registrations from the address within an hour.
unfoldable pub registration_error : SystemSettings → Day → ℕ → RegisterInput → Option ApiError
registration_error settings today recent input =
    if not settings.registration_open
    then some registration_closed
    else (if not (meets_minimum_age input.born settings.minimum_age today)
        then some underage
        else (if not (country_enabled settings.enabled_countries input.home)
            then some unsupported_country
            else (if leb 5 recent then some rate_limited else none)))

-- The unique indexes on the address and on the name; `ids` are those of all rows.
abbrev pub taken : RegisterInput → List ℕ → AccountDb → Bool
taken input ids db =
    any
      (λ k.
        on_row (λ u. (u.email == input.new_email) || text_eq u.username input.new_username)
          (db.users k))
      ids

abbrev pub new_user : SystemSettings → Draw → RegisterInput → User
new_user settings d input = record {
  role = user;
  status = if settings.require_email_verification then pending_verification else active;
  email = input.new_email;
  username = input.new_username;
  email_verified = not settings.require_email_verification;
  email_verified_at = if settings.require_email_verification then none else some d.now;
  password_hash = some d.fresh_password_hash;
  token_generation = 0;
  failed_login_attempts = 0;
  locked_until = none;
  last_login_at = none;
  last_ip_hash = some d.ip_hash;
  deletion_requested_at = none;
  deleted_at = none;
}

-- EMAIL_VERIFICATION_TTL_SECONDS, in milliseconds.
abbrev pub verification_ttl : ℕ
verification_ttl = 24 * 60 * 60 * 1000

abbrev pub verification_link : Crypto → Draw → ℕ → VerificationToken
verification_link c d id = record {
  token_user = id;
  kind = email_verification;
  token_hash = c.hash_token d.fresh_token;
  token_expires_at = d.now + verification_ttl;
  consumed_at = none;
}

abbrev pub create_user : SystemSettings → Crypto → Draw → RegisterInput → ℕ → AccountDb → AccountDb
create_user settings c d input id db =
    audit d.log_up d.now (some id) registered (some id) (record db {
      users = at_key db.users id (some (new_user settings d input));
      tokens =
          if settings.require_email_verification
          then verification_link c d id ∷ db.tokens
          else db.tokens;
    })

abbrev pub register_checked :
    Option ApiError
    → SystemSettings
    → Crypto
    → Draw
    → RegisterInput
    → ℕ
    → List ℕ
    → AccountDb
    → Reply (Option ℕ) × AccountDb
register_checked (some e) settings c d input id ids db = (refused e, db)
register_checked none settings c d input id ids db =
    if taken input ids db then (refused conflict, db) else (
      ok (if settings.require_email_verification then some d.fresh_token else none),
      create_user settings c d input id db,
    )

-- `id` is the id of the new row; the answer is the token of the mailed link, if there is one.
unfoldable pub register :
    SystemSettings
    → Crypto
    → Draw
    → Day
    → ℕ
    → RegisterInput
    → ℕ
    → List ℕ
    → AccountDb
    → Reply (Option ℕ) × AccountDb
register settings c d today recent input id ids db =
    register_checked (registration_error settings today recent input) settings c d input id ids db

registered_ok :
    (err : Option ApiError) (settings : SystemSettings) (c : Crypto) (d : Draw)
    (input : RegisterInput) (id token : ℕ) (ids : List ℕ) (db : AccountDb)
    → (register_checked err settings c d input id ids db).0 ≡ ok (some token)
    → (settings.require_email_verification ≡ true)
      × (token ≡ d.fresh_token)
      × ((register_checked err settings c d input id ids db).1
          ≡ create_user settings c d input id db)
registered_ok (some e) settings c d input id token ids db = λ h. absurd (ground (arith, h))
registered_ok none settings c d input id token ids db = elim (Bool-cases (taken input ids db)) [
  | inl hit ↦ rw hit (λ h. absurd (ground (arith, h)))
  | inr miss ↦ rw miss (λ h. (ground (arith, h), ground (arith, h), refl))
]

link_valid :
    (c : Crypto) (d later : Draw) (id : ℕ) (rest : List VerificationToken)
    → later.now < d.now + verification_ttl
    → check_token email_verification later.now
        (find_token (c.hash_token d.fresh_token) (verification_link c d id ∷ rest))
      ≡ ok id
unfolding find_token check_token
link_valid c d later id rest soon =
    let runs : leb (d.now + verification_ttl) later.now ≡ false = ground (arith, soon) in
    rw (==_refl (c.hash_token d.fresh_token), runs) refl

created_tokens :
    (settings : SystemSettings) (c : Crypto) (d : Draw) (input : RegisterInput) (id : ℕ)
    (db : AccountDb)
    → settings.require_email_verification ≡ true
    → (create_user settings c d input id db).tokens ≡ verification_link c d id ∷ db.tokens
created_tokens settings c d input id db needs = elim (Bool-cases (d.log_up)) [
  | inl on ↦ rw (on, needs) refl
  | inr off ↦ rw (off, needs) refl
]

created_users :
    (settings : SystemSettings) (c : Crypto) (d : Draw) (input : RegisterInput) (id : ℕ)
    (db : AccountDb)
    → (create_user settings c d input id db).users id ≡ some (new_user settings d input)
created_users settings c d input id db = elim (Bool-cases (d.log_up)) [
  | inl on ↦ rw (on, ==_refl id) refl
  | inr off ↦ rw (off, ==_refl id) refl
]

-- The row of the user of a valid link.
verified_row :
    (c : Crypto) (d : Draw) (raw id : ℕ) (u : User) (db : AccountDb)
    → db.users id ≡ some u
    → (verified c d raw (ok id) db).1.users id ≡ some (promote (confirm d.now u))
unfolding verified
verified_row c d raw id u db e = elim (Bool-cases (d.log_up)) [
  | inl on ↦ rw (on, ==_refl id, e) refl
  | inr off ↦ rw (off, ==_refl id, e) refl
]

verified_ok :
    (c : Crypto) (d : Draw) (raw id : ℕ) (db : AccountDb) → (verified c d raw (ok id) db).0 ≡ ok id
unfolding verified
verified_ok c d raw id db = refl

-- A registration that answers with a token makes an account that awaits its mail, and the link with that
-- token, used within its lifetime, makes the account active, with its address confirmed at that time.
pub register-verify_email :
    (settings : SystemSettings) (c : Crypto) (d later : Draw) (today : Day) (recent : ℕ)
    (input : RegisterInput) (id token : ℕ) (ids : List ℕ) (db : AccountDb)
    → (register settings c d today recent input id ids db).0 ≡ ok (some token)
    → later.now < d.now + verification_ttl
    → let written = (register settings c d today recent input id ids db).1 in
      (written.users id ≡ some (new_user settings d input))
      × ((new_user settings d input).status ≡ pending_verification)
      × ((verify_email c later token written).0 ≡ ok id)
      × ((verify_email c later token written).1.users id
          ≡ some (record (new_user settings d input) {
            status = active;
            email_verified = true;
            email_verified_at = some later.now;
          }))
unfolding register verify_email
register-verify_email settings c d later today recent input id token ids db done soon =
    let (needs, same_token, written) =
      registered_ok (registration_error settings today recent input) settings c d input id token ids
        db done in
    let made = create_user settings c d input id db in
    let row = created_users settings c d input id db in
    let link : check_token email_verification later.now
          (find_token (c.hash_token d.fresh_token) made.tokens)
        ≡ ok id =
      ap
        (λ ts.
          check_token email_verification later.now (find_token (c.hash_token d.fresh_token) ts))
        (created_tokens settings c d input id db needs)
      ∙ link_valid c d later id db.tokens soon in
    rw (written, same_token, link)
      (
        row,
        rw needs refl,
        verified_ok c later d.fresh_token id made,
        verified_row c later d.fresh_token id (new_user settings d input) made row ∙ rw needs refl,
      )
