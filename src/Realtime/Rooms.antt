-- ===== src/Realtime/Rooms.antt =====
-- Who reaches whom: a frame of a match goes to the peer alone, and the match is ended by its
-- participants; but a block or a report ends any match that it names.
use trip2world.Queue.Registry.{resolve_peer_sym}
use trip2world.Prelude.{
  ℕ, ◌≡◌, refl, sym, ap, ◌∙◌, ◌⊎◌, inl, inr, Bool, true, false, Option, none, some, List, [], ◌∷◌,
  arith, In,
}
use trip2world.Queue.Repository.{resolve_peer}
use trip2world.Realtime.Hub.{
  Hub, Frame, Sender, Event, to_user, allow, not_in_match, failed, tell, reply, Message,
  acknowledged, limited, Answer, signal, chat, rate_limited, on_chat,
}
use trip2world.Realtime.Handlers.{
  SignalInput, relay, chat_message, match_end, with_peer, relayed, chatted,
}

-- Whom the frames reach beside the sender.
abbrev pub Reaches : ℕ → List Frame → Type 0
Reaches v fs = (f : Frame) × In f fs × (f.address ≡ to_user v)

abbrev OnlySocket : List Frame → Type 0
OnlySocket fs = (v : ℕ) → Reaches v fs → ⊥

pub one_reply : (s : Sender) (m : Message) → OnlySocket (reply s m ∷ [])
one_reply s m v (f, inl e, at) = absurd (ground (arith, ap Frame.address e, at))
one_reply s m v (f, inr i, at) = absurd i

told_peer :
    (o : Option ℕ) (s : Sender) (h : Hub) (m : Message) (v : ℕ)
    → Reaches v (with_peer o s h (λ peer. (tell peer m ∷ [], h))).0
    → o ≡ some v
told_peer none s h m v r = absurd (one_reply s (failed not_in_match) v r)
told_peer (some u) s h m v (f, inl e, at) =
    let g : to_user u ≡ to_user v = ap Frame.address (sym e) ∙ at in ground (arith, g)
told_peer (some u) s h m v (f, inr i, at) = absurd i

told_both :
    (o : Option ℕ) (s : Sender) (h : Hub) (m : Message) (v : ℕ)
    → Reaches v
        (with_peer o s h (λ peer. (tell peer m ∷ reply s m ∷ reply s acknowledged ∷ [], h))).0
    → o ≡ some v
told_both none s h m v r = absurd (one_reply s (failed not_in_match) v r)
told_both (some u) s h m v (f, inl e, at) =
    let g : to_user u ≡ to_user v = ap Frame.address (sym e) ∙ at in ground (arith, g)
told_both (some u) s h m v (f, inr (inl e), at) = absurd (ground (arith, ap Frame.address e, at))
told_both (some u) s h m v (f, inr (inr (inl e)), at) =
    absurd (ground (arith, ap Frame.address e, at))
told_both (some u) s h m v (f, inr (inr (inr i)), at) = absurd i

-- A signal or a chat message reaches, beside the sender, none but the peer of the sender in the match
-- that it names; and that peer's peer there is the sender.
pub relay-Reaches :
    (e : Event) (s : Sender) (d : SignalInput) (h : Hub) (v : ℕ)
    → Reaches v (relay e s (some d) h).0 ⊎ Reaches v (chat_message s (some d) h).0
    → (resolve_peer d.signal_match s.sender_id h.world.redis ≡ some v)
      × (resolve_peer d.signal_match v h.world.redis ≡ some s.sender_id)
unfolding relay chat_message allow
relay-Reaches e s d h v r =
    let met = by_event r in (met, resolve_peer_sym d.signal_match s.sender_id v h.world.redis met)
  where
    by_bucket :
        (passes : Bool × Hub) (body : Hub → Answer)
        → (Reaches v (body passes.1).0
            → resolve_peer d.signal_match s.sender_id h.world.redis ≡ some v)
        → Reaches v (limited s passes body).0
        → resolve_peer d.signal_match s.sender_id h.world.redis ≡ some v
    by_bucket (true, g) body f reach = f reach
    by_bucket (false, g) body f reach = absurd (one_reply s (failed rate_limited) v reach)

    by_event :
        Reaches v (relay e s (some d) h).0 ⊎ Reaches v (chat_message s (some d) h).0
        → resolve_peer d.signal_match s.sender_id h.world.redis ≡ some v
    by_event (inl reach) =
        by_bucket (allow s e 300 60000 h) (relayed e s (some d))
          (told_peer (resolve_peer d.signal_match s.sender_id h.world.redis) s
            (allow s e 300 60000 h).1 (signal e d.signal_match d.content) v)
          reach
    by_event (inr reach) =
        by_bucket (allow s on_chat 25 15000 h) (chatted s (some d))
          (told_both (resolve_peer d.signal_match s.sender_id h.world.redis) s
            (allow s on_chat 25 15000 h).1 (chat d.signal_match s.sender_id d.content) v)
          reach

-- Whoever has no peer in a match can neither end nor skip it.
pub match_end_outsider :
    (db_up : Bool) (s : Sender) (m : ℕ) (h : Hub)
    → resolve_peer m s.sender_id h.world.redis ≡ none
    → match_end db_up s (some m) h ≡ (reply s (failed not_in_match) ∷ [], h)
unfolding match_end
match_end_outsider db_up s m h e = rw e refl
