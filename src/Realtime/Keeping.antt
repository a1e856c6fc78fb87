-- ===== src/Realtime/Keeping.antt =====
-- What a handler behind a bucket, or behind the test for a peer, keeps when its body does.
use trip2world.Realtime.Handlers.{with_peer}
use trip2world.Realtime.Hub.{Hub, Sender, Answer, limited}
use trip2world.Prelude.{ℕ, Bool, true, false, Option, none, some, if◌then◌else◌}

module _ (P : Hub → Type 0) where
  pub limited_keeps :
      (s : Sender) (r : Bool × Hub) (body : Hub → Answer)
      → P r.1
      → (P r.1 → P (body r.1).1)
      → P (limited s r body).1
  limited_keeps s (true, h) body inv f = f inv
  limited_keeps s (false, h) body inv f = inv

  pub with_peer_keeps :
      (o : Option ℕ) (s : Sender) (h : Hub) (body : ℕ → Answer)
      → P h
      → ((v : ℕ) → P (body v).1)
      → P (with_peer o s h body).1
  with_peer_keeps none s h body inv f = inv
  with_peer_keeps (some v) s h body inv f = f v

  pub split_keeps : (b : Bool) (x y : Answer) → P x.1 → P y.1 → P (if b then x else y).1
  split_keeps true x y p q = p
  split_keeps false x y p q = q
