-- ===== src/Privacy/Rollout.antt =====
-- `hashString` and `isInRollout` of packages/shared/src/utils.ts. The hash wraps at 32 bits; the code has
-- it signed until the last step, which is the same number modulo 2 ^ 32. Percentages are whole numbers.
use trip2world.Prelude.{
  ℕ, ◌*◌, ◌%◌, Bool, true, false, [], ◌∷◌, ◌++◌, ltb, leb, if◌then◌else◌, Text, codes, bit_xor,
}

unfoldable pub hash_from : ℕ → Text → ℕ
hash_from hash [] = hash
hash_from hash (c ∷ s) = hash_from (bit_xor hash c * 16777619 % 4294967296) s

unfoldable pub hash_string : Text → ℕ
hash_string input = hash_from 2166136261 input

unfoldable pub is_in_rollout : Text → Text → ℕ → Bool
is_in_rollout flag_key user_id percentage =
    if leb 100 percentage
    then true
    else (if leb percentage 0
        then false
        else ltb (hash_string (flag_key ++ codes ":" ++ user_id) % 100) percentage)
