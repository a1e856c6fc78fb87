-- ===== src/Matching/Scan.antt =====
-- What a scan covers: the shards of `shardsToScan`.
use trip2world.Matching.Rules.{nonempty}
use trip2world.Matching.Stages.{has, active_constraints}
use trip2world.Matching.Types.{QueueCandidate, RelaxationStage, country}
use trip2world.Matching.Shards.{
  Shard, add_shard, add_shards, includes_shard, shard_eq, shards_to_scan, shard_for, global,
  regions,
}
use trip2world.Prelude.{
  List, Text, ℕ, ◌≡◌, In, ◌||◌, true, map, arith, ◌∷◌, some, false, [], not, ◌&&◌, inl, refl, inr,
  Bool, if◌then◌else◌,
}
use mathlib.Core.List.{◌++◌}

includes_shard-append :
    (xs ys : List Shard) (s : Shard)
    → includes_shard (xs ++ ys) s ≡ (includes_shard xs s || includes_shard ys s)
includes_shard-append [] ys s = refl
includes_shard-append (x ∷ xs) ys s = ground (arith, includes_shard-append xs ys s)

pub shard_eq_sound : (s t : Shard) → shard_eq s t ≡ true → s ≡ t
shard_eq_sound s t h = ground arith

-- `Set.add`: a member is an old member or the new one.
includes_shard-add_shard :
    (xs : List Shard) (t s : Shard)
    → includes_shard (add_shard xs t) s ≡ (includes_shard xs s || shard_eq s t)
unfolding add_shard
includes_shard-add_shard xs t s =
    ground (arith, includes_shard-append xs (t ∷ []) s, shard_eq_sound s t)

pub includes_shard-add_shards :
    (xs ys : List Shard) (s : Shard)
    → includes_shard (add_shards xs ys) s ≡ (includes_shard xs s || includes_shard ys s)
unfolding add_shards
includes_shard-add_shards xs [] s = ground arith
includes_shard-add_shards xs (y ∷ ys) s =
    ground (arith, includes_shard-add_shards (add_shard xs y) ys s, includes_shard-add_shard xs y s)

pub shard_eq_refl : (s : Shard) → shard_eq s s ≡ true
shard_eq_refl s = ground arith

-- A country among the preferred ones has its shard among theirs.
includes_shard-map :
    (cs : List Text) (c : Text)
    → In c cs
    → includes_shard (map (λ x. shard_for (some x)) cs) (shard_for (some c)) ≡ true
includes_shard-map [] c h = absurd h
includes_shard-map (x ∷ cs) c (inl e) = rw e (ground (arith, shard_eq_refl (shard_for (some x))))
includes_shard-map (x ∷ cs) c (inr h) = ground (arith, includes_shard-map cs c h)

includes_shard-if :
    (b : Bool) (xs ys : List Shard) (s : Shard)
    → includes_shard (if b then add_shards xs ys else xs) s
      ≡ (includes_shard xs s || (b && includes_shard ys s))
includes_shard-if true xs ys s = includes_shard-add_shards xs ys s
includes_shard-if false xs ys s = ground arith

nonempty_gate :
    (cs : List Text) (f : Text → Shard) (s : Shard)
    → (nonempty cs && includes_shard (map f cs) s) ≡ includes_shard (map f cs) s
nonempty_gate [] f s = refl
nonempty_gate (c ∷ cs) f s = refl

module _ (seeker : QueueCandidate) (stage : ℕ) (stages : List RelaxationStage) where
  abbrev wanted : List Shard
  wanted = map (λ c. shard_for (some c)) seeker.preferred_countries

  abbrev home : List Shard
  home = global ∷ shard_for seeker.country_of ∷ []

  -- A shard is scanned exactly when it is the global one, the seeker's own, that of a preferred
  -- country, or, once the country constraint is dropped, any region.
  pub includes_shard-shards_to_scan :
      (s : Shard)
      → includes_shard (shards_to_scan seeker stage stages) s ≡ (
          (includes_shard home s || includes_shard wanted s)
          || (not (has (active_constraints stage stages) country) && includes_shard regions s))
  unfolding shards_to_scan
  includes_shard-shards_to_scan s = rw (
    includes_shard-if (not (has (active_constraints stage stages) country)) _ regions s,
    includes_shard-if (nonempty seeker.preferred_countries) (add_shards [] home) wanted s,
    nonempty_gate seeker.preferred_countries (λ c. shard_for (some c)) s,
    includes_shard-add_shards [] home s,
  )

  -- Every waiting user is indexed in the global shard, and that is always scanned; so are the
  -- seeker's own shard and the shard of each preferred country.
  pub scan_covers :
      (c : Text)
      → (includes_shard (shards_to_scan seeker stage stages) global ≡ true)
        × (includes_shard (shards_to_scan seeker stage stages) (shard_for seeker.country_of) ≡ true)
        × (In c seeker.preferred_countries
            → includes_shard (shards_to_scan seeker stage stages) (shard_for (some c)) ≡ true)
  scan_covers c = (
    rw (includes_shard-shards_to_scan global),
    rw (includes_shard-shards_to_scan (shard_for seeker.country_of))
        (ground (arith, shard_eq_refl (shard_for seeker.country_of))),
    λ member.
        rw (includes_shard-shards_to_scan (shard_for (some c)))
          (ground (arith, includes_shard-map seeker.preferred_countries c member)),
  )
