-- ===== src/Accounts/Resets.antt =====
-- The link of a reset, and what a reset ends.
use trip2world.Prelude.{
  ℕ, suc, ◌≡◌, refl, inl, inr, Bool, true, false, not, ◌||◌, some, List, [], ◌∷◌, map, arith, ◌==◌,
  if◌then◌else◌, Bool-cases, is_some, In, ==_refl,
}
use trip2world.Accounts.Eviction.{revoked_all}
use trip2world.Accounts.Recovery.{
  find_token, check_token, reset_to, reset_password, consume, with_new_password,
}
use trip2world.Accounts.Gate.{check_account, http_account, unauthenticated}
use trip2world.Accounts.Auth.{Crypto, Draw, Claims}
use trip2world.Accounts.Types.{
  AccountDb, User, Session, Reply, ok, refused, token_invalid, VerificationToken, password_reset,
  is_open_of, TokenKind, for_reset,
}

-- A link that has been used is refused.
used_link :
    (h now later : ℕ) (k : TokenKind) (xs : List VerificationToken)
    → check_token k later
        (find_token h (map (λ t. if t.token_hash == h then consume now t else t) xs))
      ≡ refused token_invalid
unfolding find_token check_token
used_link h now later k [] = refl
used_link h now later k (t ∷ rest) = elim (Bool-cases (t.token_hash == h)) [
  | inl hit ↦ rw (hit, hit) (ground arith)
  | inr miss ↦ rw (miss, miss) (used_link h now later k rest)
]

-- What a reset leaves.
pub record ResetDone (c : Crypto) (raw id : ℕ) (before after : AccountDb) : Type 0 where
  pub link_used : (later : Draw) → reset_password c later raw after ≡ (refused token_invalid, after)
  pub no_session : (s : Session) → In s after.sessions → is_open_of id s ≡ false
  pub old_tokens :
      (u : User) (k : Claims)
      → before.users id ≡ some u
      → k.gen ≡ u.token_generation
      → (check_account k (after.users id) ≡ some unauthenticated)
        × (http_account k (after.users id) ≡ some unauthenticated)

next_generation :
    (k : Claims) (v : User) (g : ℕ)
    → v.token_generation ≡ suc g
    → k.gen ≡ g
    → (check_account k (some v) ≡ some unauthenticated)
      × (http_account k (some v) ≡ some unauthenticated)
unfolding check_account http_account
next_generation k v g e f =
    let differs : (is_some v.deleted_at || not (v.token_generation == k.gen)) ≡ true =
      ground (arith, e, f) in
    rw differs (refl, refl)

reset_to-ResetDone :
    (c : Crypto) (d : Draw) (raw id : ℕ) (up : Bool) (db : AccountDb)
    → ResetDone c raw id db (reset_to c (record d { log_up = up }) raw (ok id) db).1
unfolding reset_password reset_to
reset_to-ResetDone c d raw id true db = record {
  link_used =
      λ later. rw (used_link (c.hash_token raw) d.now later.now password_reset db.tokens) refl;
  no_session = revoked_all id d.now for_reset db.sessions;
  old_tokens = λ u k row same.
      rw (==_refl id, row)
        (next_generation k (with_new_password d.fresh_password_hash u) u.token_generation refl
          same);
}
reset_to-ResetDone c d raw id false db = record {
  link_used =
      λ later. rw (used_link (c.hash_token raw) d.now later.now password_reset db.tokens) refl;
  no_session = revoked_all id d.now for_reset db.sessions;
  old_tokens = λ u k row same.
      rw (==_refl id, row)
        (next_generation k (with_new_password d.fresh_password_hash u) u.token_generation refl
          same);
}

reset_ok :
    (c : Crypto) (d : Draw) (raw id : ℕ) (r : Reply ℕ) (db : AccountDb)
    → (reset_to c d raw r db).0 ≡ ok id
    → r ≡ ok id
unfolding reset_to
reset_ok c d raw id (refused e) db h = absurd (ground (arith, h))
reset_ok c d raw id (ok k) db h = h

-- A reset that is answered with success uses its link up, closes every session of the account, and
-- ends, at both gates, every access token of the generation before.
pub reset_password-ResetDone :
    (c : Crypto) (d : Draw) (raw id : ℕ) (db : AccountDb)
    → (reset_password c d raw db).0 ≡ ok id
    → ResetDone c raw id db (reset_password c d raw db).1
unfolding reset_password
reset_password-ResetDone c d raw id db done =
    let r = check_token password_reset d.now (find_token (c.hash_token raw) db.tokens) in
    rw (reset_ok c d raw id r db done) (reset_to-ResetDone c d raw id d.log_up db)
