-- ===== src/Matching/Shards.antt =====
-- The queue shards: where a candidate waits, and which shards a seeker scans.
use trip2world.Prelude.{
  ℕ, ◌-◌, leb, Bool, true, false, not, ◌&&◌, Option, none, some, List, [], ◌∷◌, ◌++◌, any, map,
  Text, codes, text_eq, if◌then◌else◌,
}
use trip2world.Matching.Types.{country, RelaxationStage, QueueCandidate}
use trip2world.Matching.Stages.{has, active_constraints}
use trip2world.Matching.Rules.{nonempty}

-- GLOBAL_SHARD and the six regions: 'global', 'eu', 'na', 'sa', 'as', 'af' and 'oc'.
pub data Shard : Type 0 where
  global eu na sa asia af oc : Shard

abbrev pub shard_eq : Shard → Shard → Bool
shard_eq global global = true
shard_eq eu eu = true
shard_eq na na = true
shard_eq sa sa = true
shard_eq asia asia = true
shard_eq af af = true
shard_eq oc oc = true
shard_eq _ _ = false

-- `toUpperCase` on the ASCII letters, in which country codes are written.
unfoldable pub to_upper_case : Text → Text
to_upper_case s = map (λ c. if leb b'a' c && leb c b'z' then c - 32 else c) s

region : Shard → List Text → List (Text × Shard)
region r keys = map (λ k. (k, r)) keys

-- REGION_BY_COUNTRY, region by region.
unfoldable pub region_by_country : List (Text × Shard)
unfolding region
region_by_country =
    region eu (
      codes "PT"
      ∷ codes "ES"
      ∷ codes "FR"
      ∷ codes "DE"
      ∷ codes "IT"
      ∷ codes "GB"
      ∷ codes "IE"
      ∷ codes "NL"
      ∷ codes "BE"
      ∷ codes "LU"
      ∷ codes "AT"
      ∷ codes "CH"
      ∷ codes "PL"
      ∷ codes "CZ"
      ∷ codes "SK"
      ∷ codes "HU"
      ∷ codes "RO"
      ∷ codes "BG"
      ∷ codes "GR"
      ∷ codes "HR"
      ∷ codes "SI"
      ∷ codes "RS"
      ∷ codes "SE"
      ∷ codes "NO"
      ∷ codes "DK"
      ∷ codes "FI"
      ∷ codes "IS"
      ∷ codes "EE"
      ∷ codes "LV"
      ∷ codes "LT"
      ∷ codes "UA"
      ∷ codes "TR"
      ∷ [])
    ++ (region na (codes "US" ∷ codes "CA" ∷ codes "MX" ∷ [])
        ++ (region sa (
              codes "BR"
              ∷ codes "AR"
              ∷ codes "CL"
              ∷ codes "CO"
              ∷ codes "PE"
              ∷ codes "UY"
              ∷ codes "PY"
              ∷ codes "BO"
              ∷ codes "EC"
              ∷ codes "VE"
              ∷ [])
            ++ (region asia (
                  codes "JP"
                  ∷ codes "KR"
                  ∷ codes "CN"
                  ∷ codes "TW"
                  ∷ codes "HK"
                  ∷ codes "SG"
                  ∷ codes "MY"
                  ∷ codes "TH"
                  ∷ codes "VN"
                  ∷ codes "PH"
                  ∷ codes "ID"
                  ∷ codes "IN"
                  ∷ codes "PK"
                  ∷ codes "BD"
                  ∷ codes "AE"
                  ∷ codes "SA"
                  ∷ codes "IL"
                  ∷ [])
                ++ (region af (
                      codes "ZA"
                      ∷ codes "NG"
                      ∷ codes "KE"
                      ∷ codes "EG"
                      ∷ codes "MA"
                      ∷ codes "GH"
                      ∷ codes "TZ"
                      ∷ codes "ET"
                      ∷ codes "AO"
                      ∷ codes "MZ"
                      ∷ codes "CV"
                      ∷ [])
                    ++ region oc (codes "AU" ∷ codes "NZ" ∷ codes "FJ" ∷ [])))))

unfoldable pub lookup_region : List (Text × Shard) → Text → Shard
lookup_region [] key = global
lookup_region ((k, r) ∷ table) key = if text_eq k key then r else lookup_region table key

-- `!country` holds of null and of ''.
unfoldable pub shard_for : Option Text → Shard
shard_for none = global
shard_for (some []) = global
shard_for (some (c ∷ cs)) = lookup_region region_by_country (to_upper_case (c ∷ cs))

-- `Set.add`, which keeps the order of first insertion.
abbrev pub includes_shard : List Shard → Shard → Bool
includes_shard xs s = any (shard_eq s) xs

unfoldable pub add_shard : List Shard → Shard → List Shard
add_shard xs s = if includes_shard xs s then xs else xs ++ (s ∷ [])

unfoldable pub add_shards : List Shard → List Shard → List Shard
add_shards xs [] = xs
add_shards xs (s ∷ rest) = add_shards (add_shard xs s) rest

-- `Object.values(REGION_BY_COUNTRY)`
abbrev pub regions : List Shard
unfolding region_by_country
regions = map (λ e. e.1) region_by_country

unfoldable pub shards_to_scan : QueueCandidate → ℕ → List RelaxationStage → List Shard
shards_to_scan seeker stage_index stages =
    let home = add_shards [] (global ∷ shard_for seeker.country_of ∷ []) in
    let wanted =
      if nonempty seeker.preferred_countries
      then add_shards home (map (λ c. shard_for (some c)) seeker.preferred_countries)
      else home in
    if not (has (active_constraints stage_index stages) country)
    then add_shards wanted regions
    else wanted
