-- ===== src/Realtime/Floods.antt =====
-- The token bucket of a socket and an event.
use trip2world.Prelude.{
  ℕ, suc, ◌+◌, ◌-◌, ◌≤◌, ◌<◌, ◌≡◌, false, Option, none, some, List, [], ◌∷◌, arith, leb,
  if◌then◌else◌,
}
use trip2world.Realtime.Hub.{Bucket, take_token}

-- How many of the events at these times go through, from a bucket on.
unfoldable pub let_through : ℕ → ℕ → Option Bucket → List ℕ → ℕ
let_through limit window b [] = 0
let_through limit window b (now ∷ times) =
    let r = take_token now limit window b in
    let rest = let_through limit window (some r.1) times in if r.0 then suc rest else rest

abbrev pub AllBefore : ℕ → List ℕ → Type 0
AllBefore end [] = Unit {0}
AllBefore end (t ∷ ts) = (t < end) × AllBefore end ts

within :
    (limit window : ℕ) (b : Bucket) (times : List ℕ)
    → AllBefore b.reset_at times
    → let_through limit window (some b) times ≤ limit - b.count
unfolding let_through take_token
within limit window b [] h = ground arith
within limit window b (now ∷ times) (early, later) =
    let clear : leb b.reset_at now ≡ false = ground (arith, early) in
    let ih =
      within limit window (record { count = suc b.count; reset_at = b.reset_at }) times later in
    rw clear (ground (arith, ih))

-- From the event that opens a window on, at most `limit` events go through before the window ends,
-- however many come and at whatever times.
pub let_through-limit :
    (limit window now : ℕ) (times : List ℕ)
    → 1 ≤ limit
    → AllBefore (now + window) times
    → let_through limit window none (now ∷ times) ≤ limit
unfolding let_through take_token
let_through-limit limit window now times some_allowed h =
    let rest = within limit window (record { count = 1; reset_at = now + window }) times h in
    ground (arith, rest)
