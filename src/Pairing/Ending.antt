-- ===== src/Pairing/Ending.antt =====
-- `endMatch`, and what a second end does.
use trip2world.Pairing.Occupancy.{occupied}
use trip2world.Queue.Repository.{release_match, current_match}
use trip2world.Queue.Store.{Store, holds}
use trip2world.Pairing.Types.{MatchRow, Participant, MatchEndReason, World}
use trip2world.Prelude.Dict.{Dict, lookup, insert, lookup-insert_self}
use trip2world.Prelude.{
  ℕ, ◌+◌, ◌-◌, ◌/◌, ◌≡◌, refl, inl, inr, Bool, true, false, not, ◌&&◌, ◌||◌, Option, none, some,
  List, [], ◌∷◌, arith, ◌==◌, if◌then◌else◌, Bool-cases, is_some, includes, at_key, ==_refl,
}

abbrev is_running : MatchRow → Bool
is_running row = not (is_some row.ended_at)

-- `Math.round` of the length in seconds; `startedAt` is a time before `endedAt`.
abbrev seconds_between : ℕ → ℕ → ℕ
seconds_between started ended_ms = (ended_ms - started + 500) / 1000

-- `updateMany` of the participants who have not left.
unfoldable pub leave_all : ℕ → List Participant → List Participant
leave_all now [] = []
leave_all now (p ∷ ps) =
    (if is_some p.left_at then p else record p { left_at = some now }) ∷ leave_all now ps

abbrev ended_row : MatchEndReason → Option ℕ → ℕ → MatchRow → MatchRow
ended_row reason ended_by now row = record row {
  ended_at = some now;
  end_reason = some reason;
  ended_by_id = ended_by;
  duration_seconds = some (seconds_between row.started_at now);
  participants = leave_all now row.participants;
}

close_row : Option MatchRow → ℕ → MatchEndReason → Option ℕ → ℕ → Dict MatchRow → Dict MatchRow
close_row none m reason ended_by now rows = rows
close_row (some row) m reason ended_by now rows =
    if is_running row then insert m (ended_row reason ended_by now row) rows else rows

unfoldable pub release_all : List ℕ → ℕ → Store → Store
release_all [] m s = s
release_all (u ∷ us) m s = release_all us m (release_match u m s)

-- `db_up` is whether the database answers; a failure is logged.
unfoldable pub end_match : Bool → ℕ → List ℕ → MatchEndReason → Option ℕ → ℕ → World → World
unfolding close_row
end_match db_up m users reason ended_by now w = record {
  redis = release_all users m w.redis;
  matches =
      if db_up then close_row (lookup m w.matches) m reason ended_by now w.matches else w.matches;
}

freed :
    (v m u : ℕ) (s : Store)
    → current_match u (release_match v m s)
      ≡ (if u == v && holds (current_match u s) m then none else current_match u s)
unfolding release_match current_match
freed v m u s = elim (Bool-cases (u == v)) [
  | inl same ↦ let e : u ≡ v = ground arith in rw (e, ==_refl v) (own (s.user_match v))
  | inr other ↦ rw other (elsewhere (holds (s.user_match v) m) other)
]
  where
    own :
        (o : Option ℕ)
        → (if holds o m then at_key s.user_match v none else s.user_match) v
          ≡ (if holds o m then none else s.user_match v)
    own o = ground arith

    elsewhere :
        (b : Bool)
        → (u == v) ≡ false
        → (if b then at_key s.user_match v none else s.user_match) u ≡ s.user_match u
    elsewhere b apart = ground arith

release_all-match :
    (us : List ℕ) (m u : ℕ) (s : Store)
    → current_match u (release_all us m s)
      ≡ (if includes us u && holds (current_match u s) m then none else current_match u s)
unfolding release_all
release_all-match [] m u s = refl
release_all-match (v ∷ us) m u s =
    rw (release_all-match us m u (release_match v m s), freed v m u s)
      (twice (u == v) (includes us u) (current_match u s))
  where
    twice :
        (a b : Bool) (o : Option ℕ)
        → (if b && holds (if a && holds o m then none else o) m
            then none
            else (if a && holds o m then none else o))
          ≡ (if (a || b) && holds o m then none else o)
    twice a b o = ground arith

close_row_twice :
    (found : Option MatchRow) (m : ℕ) (reason reason2 : MatchEndReason) (by1 by2 : Option ℕ)
    (now later : ℕ) (rows : Dict MatchRow)
    → lookup m rows ≡ found
    → close_row
        (lookup m (close_row found m reason by1 now rows))
        m
        reason2
        by2
        later
        (close_row found m reason by1 now rows)
      ≡ close_row found m reason by1 now rows
unfolding close_row
close_row_twice none m reason reason2 by1 by2 now later rows e = rw e refl
close_row_twice (some row) m reason reason2 by1 by2 now later rows e =
    elim (Bool-cases (is_running row)) [
      | inl running ↦ rw (running, lookup-insert_self m (ended_row reason by1 now row) rows) refl
      | inr over ↦ rw (over, e) (rw over refl)
    ]

-- The end of a match frees those of the named users who are in that match, and leaves every other
-- user in the match that it is in; and once an end has reached the database, a further end of the same
-- match, whoever calls it and for whatever reason, changes no row.
pub end_match_once :
    (db_up : Bool) (m : ℕ) (us us2 : List ℕ) (reason reason2 : MatchEndReason) (by1 by2 : Option ℕ)
    (now later u : ℕ) (w : World)
    → (occupied (end_match db_up m us reason by1 now w) u
        ≡ (if includes us u && holds (occupied w u) m then none else occupied w u))
      × ((end_match db_up m us2 reason2 by2 later (end_match true m us reason by1 now w)).matches
          ≡ (end_match true m us reason by1 now w).matches)
unfolding end_match
end_match_once db_up m us us2 reason reason2 by1 by2 now later u w =
    (release_all-match us m u w.redis, again db_up)
  where
    again :
        (up : Bool)
        → (end_match up m us2 reason2 by2 later (end_match true m us reason by1 now w)).matches
          ≡ (end_match true m us reason by1 now w).matches
    again true =
        close_row_twice (lookup m w.matches) m reason reason2 by1 by2 now later w.matches refl
    again false = refl
