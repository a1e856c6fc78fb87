-- ===== src/Tokens/Purchases.antt =====
-- Purchases: a webhook that is delivered again, one after the other and at the same time; and the
-- answers to a time offer.
use trip2world.Prelude.{
  ℕ, ◌+◌, ◌*◌, ◌≡◌, refl, ap, ◌∙◌, inl, inr, Bool, true, false, some, [], ◌∷◌, arith, Option-cases,
}
use trip2world.Prelude.Dict.{Dict, lookup, insert, lookup-insert_self}
use trip2world.Tokens.Types.{TokenPurchase, Tip, Db, ok, err, ◌>>=◌, completed, already_answered}
use trip2world.Tokens.Accounts.{credit}
use trip2world.Tokens.Service.{
  find_by_ref, event_taken, is_completed, fulfil_write, fulfil_found, fulfil_purchase,
  respond_to_offer,
}
use trip2world.Tokens.Replay.{balance_of}

find_by_ref_ref :
    (ref id : ℕ) (p : TokenPurchase) (d : Dict TokenPurchase)
    → find_by_ref ref d ≡ some (id, p)
    → p.provider_ref ≡ ref
find_by_ref_ref ref id p [] h = cc
find_by_ref_ref ref id p ((j, x) ∷ d) h = ground (arith, find_by_ref_ref ref id p d)

find_by_ref-insert :
    (ref id : ℕ) (p q : TokenPurchase) (d : Dict TokenPurchase)
    → find_by_ref ref d ≡ some (id, p)
    → q.provider_ref ≡ ref
    → find_by_ref ref (insert id q d) ≡ some (id, q)
unfolding insert
find_by_ref-insert ref id p q [] h e = cc
find_by_ref-insert ref id p q ((j, x) ∷ d) h e = ground (arith, find_by_ref-insert ref id p q d)

event_taken-insert :
    (id event : ℕ) (q : TokenPurchase) (d : Dict TokenPurchase)
    → event_taken id event (insert id q d) ≡ event_taken id event d
unfolding insert
event_taken-insert id event q [] = ground arith
event_taken-insert id event q ((j, x) ∷ d) = ground (arith, event_taken-insert id event q d)

abbrev marked_done : TokenPurchase → ℕ → TokenPurchase
marked_done p event = record p { status = completed; provider_event_id = some event }

abbrev Fulfils : ℕ → TokenPurchase → ℕ → Db → Type 0
Fulfils id p event db =
    (db' : Db) × (fulfil_write id p event db ≡ ok (true, db'))
    × (balance_of p.buyer_id db'.accounts ≡ balance_of p.buyer_id db.accounts + p.bought_tokens)
    × (db'.purchases ≡ insert id (marked_done p event) db.purchases)

fulfil_write-Fulfils :
    (id : ℕ) (p : TokenPurchase) (event : ℕ) (db : Db)
    → event_taken id event db.purchases ≡ false
    → Fulfils id p event db
unfolding fulfil_write credit
fulfil_write-Fulfils id p event db free =
    rw (free, ◌>>=◌)
      (_, refl, rw (lookup-insert_self p.buyer_id _ db.accounts) (ground arith), refl)

module _ (ref id event : ℕ) (p : TokenPurchase) (db : Db)
    (found : find_by_ref ref db.purchases ≡ some (id, p))
    (open_still : is_completed p.status ≡ false)
    (free : event_taken id event db.purchases ≡ false) where
  -- An open purchase is credited by its first webhook, and by no later one, whatever event id that
  -- carries.
  pub fulfil_once :
      (db' : Db) × (fulfil_purchase ref event db ≡ ok (true, db'))
      × (balance_of p.buyer_id db'.accounts ≡ balance_of p.buyer_id db.accounts + p.bought_tokens)
      × ((again : ℕ) → fulfil_purchase ref again db' ≡ ok (false, db'))
  unfolding fulfil_purchase fulfil_found
  fulfil_once =
      let (db', written, credited_to, marked) = fulfil_write-Fulfils id p event db free in
      let found' : find_by_ref ref db'.purchases ≡ some (id, marked_done p event) =
        rw marked
          (find_by_ref-insert ref id p _ db.purchases found (find_by_ref_ref ref id p _ found)) in
      (
        db',
        rw (found, fulfil_found, open_still, written),
        credited_to,
        λ again. rw (found', fulfil_found),
      )

  -- Two deliveries of one webhook that both read the open purchase before either has written are
  -- both credited: the unique index on the event id does not tell a row from itself.
  pub fulfil_race :
      (db₁ db₂ : Db) × (fulfil_found (find_by_ref ref db.purchases) event db ≡ ok (true, db₁))
      × (fulfil_found (find_by_ref ref db.purchases) event db₁ ≡ ok (true, db₂))
      × (balance_of p.buyer_id db₂.accounts
          ≡ balance_of p.buyer_id db.accounts + 2 * p.bought_tokens)
  unfolding fulfil_found
  fulfil_race =
      let (db₁, first, one, marked) = fulfil_write-Fulfils id p event db free in
      let free₁ : event_taken id event db₁.purchases ≡ false =
        rw marked (event_taken-insert id event _ db.purchases ∙ free) in
      let (db₂, second, two, _) = fulfil_write-Fulfils id p event db₁ free₁ in
      (
        db₁,
        db₂,
        rw (found, fulfil_found, open_still, first),
        rw (found, fulfil_found, open_still, second),
        omega (arith, one, two),
      )

-- What an accepted answer was given to, and what it wrote.
respond_inv :
    (tip_id user_id now : ℕ) (accepted : Bool) (db db' : Db) (r : ℕ × ℕ)
    → respond_to_offer tip_id user_id accepted now db ≡ ok (r, db')
    → (t : Tip) × (lookup tip_id db.tips ≡ some t)
      × (t.to_user_id ≡ user_id)
      × (db' ≡ record db {
        tips =
            insert tip_id (record t { accepted = some accepted; responded_at = some now }) db.tips;
      })
unfolding respond_to_offer
respond_inv tip_id user_id now accepted db db' r h = elim (Option-cases (lookup tip_id db.tips)) [
  | inl e ↦ absurd (ground arith)
  | inr (t, e) ↦ (t, e, ground arith, ground arith)
]

respond_again :
    (tip_id user_id later : ℕ) (again : Bool) (t : Tip) (b : Bool) (db : Db)
    → lookup tip_id db.tips ≡ some t
    → t.to_user_id ≡ user_id
    → t.accepted ≡ some b
    → respond_to_offer tip_id user_id again later db ≡ err already_answered
unfolding respond_to_offer
respond_again tip_id user_id later again t b db e u a = ground arith

-- Only the recipient answers an offer, and of answers one after the other only the first counts: it
-- moves no tokens.
pub respond_once :
    (tip_id user_id now : ℕ) (accepted : Bool) (db db' : Db) (r : ℕ × ℕ)
    → respond_to_offer tip_id user_id accepted now db ≡ ok (r, db')
    → ((t : Tip) × (lookup tip_id db.tips ≡ some t) × (t.to_user_id ≡ user_id))
      × (db'.accounts ≡ db.accounts)
      × (db'.ledger ≡ db.ledger)
      × ((again : Bool) (later : ℕ)
          → respond_to_offer tip_id user_id again later db' ≡ err already_answered)
respond_once tip_id user_id now accepted db db' r h =
    let (t, e, mine, written) = respond_inv tip_id user_id now accepted db db' r h in
    (
      (t, e, mine),
      ap (λ x. x.accounts) written,
      ap (λ x. x.ledger) written,
      λ again later.
          respond_again tip_id user_id later again
            (record t { accepted = some accepted; responded_at = some now }) accepted db'
            (ap (λ x. lookup tip_id x.tips) written ∙ lookup-insert_self tip_id _ db.tips) mine
            refl,
    )
