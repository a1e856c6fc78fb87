-- ===== src/Matching/Order.antt =====
-- `isBetter` is a strict order on candidates, total up to the user id.
use trip2world.Prelude.{◌≡◌, true, false, arith}
use trip2world.Prelude.Int.{◌≤ℤ◌}
use trip2world.Matching.Types.{QueueCandidate}
use trip2world.Matching.Score.{ScoreBreakdown}
use trip2world.Matching.Select.{MatchSelection, is_better}

-- A later candidate that does not beat the old best does not beat what beat it.
pub is_better-replace :
    (s t : ScoreBreakdown) (c d : QueueCandidate) (b n : MatchSelection)
    → n.score ≡ t
    → n.candidate ≡ d
    → is_better s c b ≡ false
    → is_better t d b ≡ true
    → is_better s c n ≡ false
unfolding is_better
is_better-replace s t c d b n e f h k = ground arith

pub is_better_irrefl :
    (s : ScoreBreakdown) (c : QueueCandidate) (n : MatchSelection)
    → n.score ≡ s
    → n.candidate ≡ c
    → is_better s c n ≡ false
unfolding is_better
is_better_irrefl s c n e f = ground arith

-- Of two candidates neither of which beats the other, both have one user id.
pub is_better_connected :
    (s t : ScoreBreakdown) (c d : QueueCandidate) (m n : MatchSelection)
    → m.score ≡ s
    → m.candidate ≡ c
    → n.score ≡ t
    → n.candidate ≡ d
    → is_better s c n ≡ false
    → is_better t d m ≡ false
    → c.user_id ≡ d.user_id
unfolding is_better
is_better_connected s t c d m n e f g k p q = ground arith

-- A larger total beats, whatever the times and ids are.
pub is_better_of_total :
    (s : ScoreBreakdown) (c : QueueCandidate) (n : MatchSelection)
    → ¬ (s.total ≤ℤ n.score.total)
    → is_better s c n ≡ true
unfolding is_better
is_better_of_total s c n h = ground arith
