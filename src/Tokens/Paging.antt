-- ===== src/Tokens/Paging.antt =====
-- The pages of `history`.
use trip2world.Prelude.{
  ℕ, zero, suc, ◌+◌, ◌-◌, ◌*◌, ◌≤◌, ◌≡◌, refl, ◌≢◌, ◌↔◌, true, List, [], ◌∷◌, ◌++◌, arith, length,
  take, drop,
}
use trip2world.Tokens.Types.{LedgerRow, Db}
use trip2world.Tokens.Service.{rows_of, history}

module _ {A : Type 0} where
  take-nil : (n : ℕ) → take {A = A} n [] ≡ []
  take-nil zero = refl
  take-nil (suc n) = refl

  take-add : (m n : ℕ) (xs : List A) → take m xs ++ take n (drop m xs) ≡ take (m + n) xs
  take-add zero n xs = ground arith
  take-add (suc m) n [] = ground (arith, take-nil n, take-nil (suc m + n))
  take-add (suc m) n (x ∷ xs) =
      let e : suc m + n ≡ suc (m + n) = omega arith in rw (e, take-add m n xs)

  take-drop_nil : (m n : ℕ) (xs : List A) → (take (suc n) (drop m xs) ≡ []) ↔ (length xs ≤ m)
  take-drop_nil zero n [] = ground arith
  take-drop_nil zero n (x ∷ xs) = ground arith
  take-drop_nil (suc m) n [] = ground arith
  take-drop_nil (suc m) n (x ∷ xs) = ground (arith, take-drop_nil m n xs)

-- The items of the first pages, one after the other.
pub pages : ℕ → ℕ → ℕ → Db → List LedgerRow
pages user_id zero page_size db = []
pages user_id (suc n) page_size db =
    pages user_id n page_size db ++ (history user_id (suc n) page_size db).items

-- Reading page after page gives a user's rows in order, each of them once.
pub pages-take :
    (user_id n page_size : ℕ) (db : Db)
    → pages user_id n page_size db ≡ take (n * page_size) (rows_of user_id db.ledger)
unfolding pages history
pages-take user_id zero page_size db = ground arith
pages-take user_id (suc n) page_size db =
    let before : (suc n - 1) * page_size ≡ n * page_size = grind arith in
    let total : n * page_size + page_size ≡ suc n * page_size = grind arith in
    rw (before, pages-take user_id n page_size db, take-add (n * page_size) page_size, total)

-- `hasMore` says exactly whether the next page has a row.
pub history_has_more :
    (user_id page n : ℕ) (db : Db)
    → 1 ≤ page
    → ((history user_id page (suc n) db).has_more ≡ true)
      ↔ ((history user_id (page + 1) (suc n) db).items ≢ [])
unfolding history
history_has_more user_id page n db h =
    let before : (page + 1 - 1) * suc n ≡ page * suc n = grind arith in
    rw before (ground (arith, take-drop_nil (page * suc n) n (rows_of user_id db.ledger)))
