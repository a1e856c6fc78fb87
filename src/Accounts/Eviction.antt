-- ===== src/Accounts/Eviction.antt =====
-- What a restriction reaches: the gates, the sessions, Redis; and what it does not reach.
use trip2world.Queue.Repository.{peer_in, resolve_peer, get_match_participants}
use trip2world.Prelude.{
  ℕ, suc, ◌+◌, ◌*◌, ◌≡◌, refl, sym, subst, ◌⊎◌, inl, inr, Bool, true, false, Option, none, some,
  List, [], ◌∷◌, map, arith, if◌then◌else◌, Bool-cases, is_some, get_or, In, Text, ==_refl,
}
use trip2world.Accounts.Writes.{evict_db, first_of, guarded_ok}
use trip2world.Accounts.Gate.{check_account, http_account, revalidate_socket, standing}
use trip2world.Accounts.Auth.{Claims}
use trip2world.Accounts.Types.{
  suspended, banned, AccountDb, User, Session, RevokedReason, ApiError, ok, living, is_open_of,
  revoke, audit, AuditAction, user_banned, user_suspended, for_suspension, for_ban,
}
use trip2world.Accounts.Decisions.{
  apply_direct, direct_done, direct_error, resolve_direct, DirectInput, Weather, ban_error,
}
use trip2world.Accounts.Moderation.{
  Site, Moderator, on_db, suspend, ban, evict, guarded, actionable, assert_actionable,
}

-- Every token of the account is turned away at both gates, a socket of it does not stand at its
-- revalidation, and no session of it is open.
pub record Shut (id : ℕ) (db : AccountDb) : Type 0 where
  pub by_socket : (k : Claims) → is_some (check_account k (db.users id)) ≡ true
  pub by_http : (k : Claims) → is_some (http_account k (db.users id)) ≡ true
  pub no_standing : revalidate_socket id db ≡ false
  pub no_session : (s : Session) → In s db.sessions → is_open_of id s ≡ false

module _ (k : Claims) where
  shut_socket :
      (u : User)
      → (status_of : (u.status ≡ suspended) ⊎ (u.status ≡ banned))
      → is_some (check_account k (some u)) ≡ true
  unfolding check_account
  shut_socket u (inl e) = rw e (ground arith)
  shut_socket u (inr e) = rw e (ground arith)

  shut_http :
      (u : User)
      → (status_of : (u.status ≡ suspended) ⊎ (u.status ≡ banned))
      → is_some (http_account k (some u)) ≡ true
  unfolding http_account
  shut_http u (inl e) = rw e (ground arith)
  shut_http u (inr e) = rw e (ground arith)

shut_standing :
    (u : User) → ((u.status ≡ suspended) ⊎ (u.status ≡ banned)) → standing (some u) ≡ false
unfolding standing
shut_standing u (inl e) = rw e (ground arith)
shut_standing u (inr e) = rw e (ground arith)

revoked_closed :
    (id now : ℕ) (why : RevokedReason) (x : Session)
    → is_open_of id (if is_open_of id x then revoke now why x else x) ≡ false
revoked_closed id now why x = elim (Bool-cases (is_open_of id x)) [
  | inl is ↦ rw is (ground arith)
  | inr not_so ↦ rw not_so not_so
]

-- No open session of the user is left by the revocation.
pub revoked_all :
    (id now : ℕ) (why : RevokedReason) (xs : List Session) (s : Session)
    → In s (map (λ x. if is_open_of id x then revoke now why x else x) xs)
    → is_open_of id s ≡ false
revoked_all id now why [] s h = absurd h
revoked_all id now why (x ∷ xs) s (inl e) =
    subst (λ y. is_open_of id y ≡ false) (sym e) (revoked_closed id now why x)
revoked_all id now why (x ∷ xs) s (inr h) = revoked_all id now why xs s h

Shut-of :
    (id : ℕ) (db : AccountDb) (u : User)
    → db.users id ≡ some u
    → (u.status ≡ suspended) ⊎ (u.status ≡ banned)
    → ((s : Session) → In s db.sessions → is_open_of id s ≡ false)
    → Shut id db
unfolding revalidate_socket
Shut-of id db u e status_of closed = record {
  by_socket = λ k. rw e (shut_socket k u status_of);
  by_http = λ k. rw e (shut_http k u status_of);
  no_standing = rw e (shut_standing u status_of);
  no_session = closed;
}

pub suspend-Shut :
    (now target who : ℕ) (why : Text) (remark : Option Text) (expires : ℕ) (db : AccountDb)
    (u : User)
    → db.users target ≡ some u
    → Shut target (suspend now target who why remark expires db)
unfolding suspend
suspend-Shut now target who why remark expires db u e =
    Shut-of target (suspend now target who why remark expires db)
      (record u { status = suspended; token_generation = suc u.token_generation })
      (rw (==_refl target, e) refl) (inl refl)
      (λ s h. revoked_all target now for_suspension db.sessions s h)

pub ban-Shut :
    (now target who : ℕ) (why : Text) (remark : Option Text) (db : AccountDb) (u : User)
    → db.users target ≡ some u
    → Shut target (ban now target who why remark db)
unfolding ban
ban-Shut now target who why remark db u e =
    Shut-of target (ban now target who why remark db)
      (record u { status = banned; token_generation = suc u.token_generation })
      (rw (==_refl target, e) refl) (inr refl)
      (λ s h. revoked_all target now for_ban db.sessions s h)

pub audit-Shut :
    (up : Bool) (now : ℕ) (who : Option ℕ) (what : AuditAction) (about : Option ℕ) (id : ℕ)
    (db : AccountDb)
    → Shut id db
    → Shut id (audit up now who what about db)
unfolding revalidate_socket
audit-Shut true now who what about id db h = record {
  by_socket = h.by_socket;
  by_http = h.by_http;
  no_standing = h.no_standing;
  no_session = h.no_session;
}
audit-Shut false now who what about id db h = h

pub actionable_row :
    (o : Option User) (target who : ℕ)
    → actionable (living o) target who ≡ none
    → (u : User) × (o ≡ some u)
unfolding actionable
actionable_row none target who e = absurd (ground (arith, e))
actionable_row (some u) target who e = (u, refl)

direct-Shut :
    (now : ℕ) (input : DirectInput) (who : ℕ) (db : AccountDb) (u : User)
    → db.users input.direct_target ≡ some u
    → Shut input.direct_target (apply_direct now input who db)
unfolding apply_direct
direct-Shut now input who db u e = elim (Bool-cases (input.direct_ban)) [
  | inl is ↦
      rw is (ban-Shut now input.direct_target who input.direct_reason input.direct_notes db u e)
  | inr not_so ↦ rw not_so (
      suspend-Shut now input.direct_target who input.direct_reason input.direct_notes
        (now + get_or input.direct_hours 24 * 3600000) db u e)
]

-- What Redis keeps of a user whom it has let go.
abbrev pub Gone : ℕ → Site → Type 0
Gone id s = (s.redis.user_match id ≡ none) × (s.redis.entry id ≡ none) × (s.present id ≡ false)

evict-Gone :
    (redis_up : Bool) (target : ℕ) (s : Site)
    → redis_up ≡ true
    → Gone target (evict redis_up target s)
unfolding evict
evict-Gone false target s e = absurd (ground (arith, e))
evict-Gone true target s e = rw (==_refl target) (refl, refl, refl)

-- A ban or a suspension without a report that is answered with success shuts its target out, and, when
-- Redis answers, its occupancy, snapshot and presence are gone.
pub resolve_direct-Shut :
    (up : Weather) (now : ℕ) (input : DirectInput) (m : Moderator) (s : Site)
    → (resolve_direct up now input m s).0 ≡ ok tt
    → Shut input.direct_target (resolve_direct up now input m s).1.db
      × (up.redis_up ≡ true → Gone input.direct_target (resolve_direct up now input m s).1)
unfolding resolve_direct direct_error direct_done assert_actionable
resolve_direct-Shut up now input m s done =
    let (passes, same) =
      guarded_ok (direct_error input m s.db) (direct_done up now input m s) s done in
    let (u, e) = actionable_row (s.db.users input.direct_target) input.direct_target m.id_of (
      first_of (assert_actionable input.direct_target m.id_of s.db)
        (ban_error input.direct_ban m.role_of) passes) in
    rw same (
      audit-Shut up.audit_up now (some m.id_of)
          (if input.direct_ban then user_banned else user_suspended) (some input.direct_target)
          input.direct_target
          (evict up.redis_up input.direct_target (on_db (apply_direct now input m.id_of) s)).db
          (subst (Shut input.direct_target)
            (sym
              (evict_db up.redis_up input.direct_target (on_db (apply_direct now input m.id_of) s)))
            (direct-Shut now input m.id_of s.db u e)),
      λ on.
          evict-Gone up.redis_up input.direct_target (on_db (apply_direct now input m.id_of) s) on,
    )

-- The rooms of Redis are not let go: the relay asks them, and not the keys that the eviction drops.
pub resolve_direct-resolve_peer :
    (up : Weather) (now : ℕ) (input : DirectInput) (m : Moderator) (s : Site) (match_id id : ℕ)
    → resolve_peer match_id id (resolve_direct up now input m s).1.redis
      ≡ resolve_peer match_id id s.redis
unfolding resolve_direct direct_done evict resolve_peer get_match_participants
resolve_direct-resolve_peer up now input m s match_id id =
    by_error (direct_error input m s.db) (up.redis_up)
  where
    by_error :
        (err : Option ApiError) (on : Bool)
        → peer_in
            ((guarded err
                (on_db
                  (audit up.audit_up now
                    (some m.id_of)
                    (if input.direct_ban then user_banned else user_suspended)
                    (some input.direct_target))
                  (evict on input.direct_target (on_db (apply_direct now input m.id_of) s)))
                s).1.redis.match_of
              match_id)
            id
          ≡ peer_in (s.redis.match_of match_id) id
    by_error (some e) on = refl
    by_error none true = refl
    by_error none false = refl
