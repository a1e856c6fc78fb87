-- ===== src/Accounts/Writes.antt =====
-- What the writes of a moderator's call leave alone.
use trip2world.Accounts.Types.{AccountDb, ApiError, AuditAction, audit, ok}
use trip2world.Accounts.Decisions.{
  ResolveInput, decide, ReportDecision, dismiss, apply_direct, warn_user, suspend_user, DirectInput,
  ban_user,
}
use trip2world.Accounts.Moderation.{suspend, ban, evict, Site, guarded, first_error}
use trip2world.Prelude.{
  ℕ, ◌+◌, ◌*◌, ◌≡◌, refl, ◌≢◌, inl, inr, Bool, true, false, Option, none, some, arith,
  if◌then◌else◌, Bool-cases, get_or, Text,
}

-- Writes on another account.
pub suspend_other :
    (now target who : ℕ) (why : Text) (remark : Option Text) (expires id : ℕ) (db : AccountDb)
    → target ≢ id
    → (suspend now target who why remark expires db).users id ≡ db.users id
unfolding suspend
suspend_other now target who why remark expires id db other = ground arith

pub ban_other :
    (now target who : ℕ) (why : Text) (remark : Option Text) (id : ℕ) (db : AccountDb)
    → target ≢ id
    → (ban now target who why remark db).users id ≡ db.users id
unfolding ban
ban_other now target who why remark id db other = ground arith

pub decide_other :
    (d : ReportDecision) (now : ℕ) (input : ResolveInput) (target who id : ℕ) (db : AccountDb)
    → target ≢ id
    → (decide d now input target who db).users id ≡ db.users id
unfolding decide
decide_other dismiss now input target who id db other = refl
decide_other warn_user now input target who id db other = refl
decide_other suspend_user now input target who id db other =
    suspend_other now target who _ _ _ id db other
decide_other ban_user now input target who id db other = ban_other now target who _ _ id db other

pub audit_users :
    (up : Bool) (now : ℕ) (who : Option ℕ) (what : AuditAction) (about : Option ℕ) (db : AccountDb)
    → (audit up now who what about db).users ≡ db.users
audit_users true now who what about db = refl
audit_users false now who what about db = refl

pub evict_db : (up : Bool) (target : ℕ) (s : Site) → (evict up target s).db ≡ s.db
unfolding evict
evict_db true target s = refl
evict_db false target s = refl

pub written_db :
    (d redis_up : Bool) (target : ℕ) (s : Site)
    → (if d then evict redis_up target s else s).db ≡ s.db
written_db true redis_up target s = evict_db redis_up target s
written_db false redis_up target s = refl

-- A guarded call either leaves everything or does its writes with no error.
pub guarded_row :
    (err : Option ApiError) (done s : Site) (id : ℕ)
    → (err ≡ none → done.db.users id ≡ s.db.users id)
    → (guarded err done s).1.db.users id ≡ s.db.users id
guarded_row none done s id h = h refl
guarded_row (some e) done s id h = refl

pub first_of : (a b : Option ApiError) → first_error a b ≡ none → a ≡ none
first_of none b e = refl
first_of (some x) b e = e

pub middle_of : (a b c : Option ApiError) → first_error a (first_error b c) ≡ none → b ≡ none
middle_of none b c e = first_of b c e
middle_of (some x) b c e = absurd (ground (arith, e))

pub direct_written :
    (now who : ℕ) (input : DirectInput) (id : ℕ) (db : AccountDb)
    → input.direct_target ≢ id
    → (apply_direct now input who db).users id ≡ db.users id
unfolding apply_direct
direct_written now who input id db other = elim (Bool-cases (input.direct_ban)) [
  | inl is ↦
      rw is
        (ban_other now input.direct_target who input.direct_reason input.direct_notes id db other)
  | inr not_so ↦ rw not_so (
      suspend_other now input.direct_target who input.direct_reason input.direct_notes
        (now + get_or input.direct_hours 24 * 3600000) id db other)
]

pub guarded_ok :
    (err : Option ApiError) (done s : Site)
    → (guarded err done s).0 ≡ ok tt
    → (err ≡ none) × ((guarded err done s).1 ≡ done)
guarded_ok none done s e = (refl, refl)
guarded_ok (some x) done s e = absurd (ground (arith, e))
