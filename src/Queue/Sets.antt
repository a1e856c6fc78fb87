-- ===== src/Queue/Sets.antt =====
-- Sorted sets and sets: ZADD, ZREM, ZRANGE, and what they contain.
use trip2world.Prelude.{
  ℕ, ◌≡◌, ◌≢◌, ◌↔◌, ◌⊎◌, ◌&&◌, ◌||◌, List, [], ◌∷◌, map, arith, ltb, ◌==◌, if◌then◌else◌, take, In,
  includes, includes-In, In-includes,
}
use trip2world.Queue.Store.{ZSet}

unfoldable pub zrem : ℕ → ZSet → ZSet
zrem m [] = []
zrem m ((s, n) ∷ z) = if n == m then zrem m z else (s, n) ∷ zrem m z

unfoldable pub zinsert : ℕ → ℕ → ZSet → ZSet
zinsert s m [] = (s, m) ∷ []
zinsert s m ((t, n) ∷ z) =
    if ltb s t || ((s == t) && ltb m n) then (s, m) ∷ (t, n) ∷ z else (t, n) ∷ zinsert s m z

unfoldable pub zadd : ℕ → ℕ → ZSet → ZSet
unfolding zinsert
zadd s m z = zinsert s m (zrem m z)

unfoldable pub members : ZSet → List ℕ
members z = map (λ e. e.1) z

-- ZRANGE key 0 n-1.
unfoldable pub zrange : ℕ → ZSet → List ℕ
zrange n z = take n (members z)

-- `[...new Set(xs)]`: first occurrences, in order; `seen` are those before.
unfoldable pub unique_from : List ℕ → List ℕ → List ℕ
unique_from seen [] = []
unique_from seen (x ∷ xs) =
    let rest = unique_from (x ∷ seen) xs in
    if includes seen x then unique_from seen xs else x ∷ rest

unfoldable pub zrem_all : List ℕ → ZSet → ZSet
zrem_all [] z = z
zrem_all (m ∷ ms) z = zrem_all ms (zrem m z)

pub In-members-zrem :
    (a m : ℕ) (z : ZSet) → (In a (members (zrem m z))) ↔ (In a (members z) × (a ≢ m))
unfolding members zrem
In-members-zrem a m [] = ground arith
In-members-zrem a m ((s, n) ∷ z) = ground (arith, In-members-zrem a m z)

In-members-zinsert :
    (a s m : ℕ) (z : ZSet) → (In a (members (zinsert s m z))) ↔ ((a ≡ m) ⊎ In a (members z))
unfolding members zinsert
In-members-zinsert a s m [] = ground arith
In-members-zinsert a s m ((t, n) ∷ z) = ground (arith, In-members-zinsert a s m z)

pub In-members-zadd :
    (a s m : ℕ) (z : ZSet) → (In a (members (zadd s m z))) ↔ ((a ≡ m) ⊎ In a (members z))
unfolding zadd
In-members-zadd a s m z = ground (arith, In-members-zinsert a s m (zrem m z), In-members-zrem a m z)

pub In-members-zrem_all :
    (a : ℕ) (ms : List ℕ) (z : ZSet)
    → (In a (members (zrem_all ms z))) ↔ (In a (members z) × ¬ (In a ms))
unfolding zrem_all
In-members-zrem_all a [] z = ground arith
In-members-zrem_all a (m ∷ ms) z =
    ground (arith, In-members-zrem_all a ms (zrem m z), In-members-zrem a m z)

pub In-unique_from :
    (a : ℕ) (seen xs : List ℕ) → (In a (unique_from seen xs)) ↔ (In a xs × ¬ (In a seen))
unfolding unique_from
In-unique_from a seen [] = ground arith
In-unique_from a seen (x ∷ xs) = ground (
  arith,
  In-unique_from a seen xs,
  In-unique_from a (x ∷ seen) xs,
  includes-In x seen,
  In-includes x seen,
)
