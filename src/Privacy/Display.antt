-- ===== src/Privacy/Display.antt =====
-- `stripInvisibleCharacters`, `normalizeWhitespace` and `sanitizeDisplayText` of
-- packages/shared/src/utils.ts, on texts as UTF-16 code units; no range that is removed holds a surrogate.
use trip2world.Prelude.{
  ℕ, ◌≡◌, refl, Bool, true, false, not, ◌&&◌, ◌||◌, [], ◌∷◌, arith, leb, ◌==◌, if◌then◌else◌,
  filter, Text, is_space,
}

unfoldable pub is_invisible : ℕ → Bool
is_invisible c =
    leb c 0x1f
    || (leb 0x7f c && leb c 0x9f)
    || (c == 0xad)
    || (leb 0x200b c && leb c 0x200f)
    || (leb 0x202a c && leb c 0x202e)
    || (leb 0x2060 c && leb c 0x206f)
    || (c == 0xfeff)

unfoldable pub strip_invisible_characters : Text → Text
strip_invisible_characters s = filter (λ c. not (is_invisible c)) s

-- `replace(/\s+/g, ' ')`; `inside` is whether the unit before was white space.
unfoldable pub collapse : Bool → Text → Text
collapse inside [] = []
collapse inside (c ∷ s) =
    let spaced = collapse true s in
    let plain = collapse false s in
    if is_space c then (if inside then spaced else 32 ∷ spaced) else c ∷ plain

unfoldable pub trim_start : Text → Text
trim_start [] = []
trim_start (c ∷ s) = let rest = trim_start s in if is_space c then rest else c ∷ s

abbrev is_empty : Text → Bool
is_empty [] = true
is_empty (c ∷ s) = false

unfoldable pub trim_end : Text → Text
trim_end [] = []
trim_end (c ∷ s) = let rest = trim_end s in if is_space c && is_empty rest then [] else c ∷ rest

unfoldable pub normalize_whitespace : Text → Text
normalize_whitespace s = trim_end (trim_start (collapse false s))

unfoldable pub sanitize_display_text : Text → Text
sanitize_display_text s = normalize_whitespace (strip_invisible_characters s)

-- A text of visible units whose only white space is single spaces between other units; `after` is
-- whether the unit before was one, or there was none.
unfoldable pub tidy_from : Bool → Text → Bool
tidy_from after [] = not after
tidy_from after (c ∷ s) =
    let spaced = tidy_from true s in
    let plain = tidy_from false s in
    if c == 32 then not after && spaced else not (is_space c) && not (is_invisible c) && plain

unfoldable pub is_tidy : Text → Bool
is_tidy [] = true
is_tidy (c ∷ s) = tidy_from true (c ∷ s)

-- The same but for a space at the end.
spaced_from : Bool → Text → Bool
spaced_from after [] = true
spaced_from after (c ∷ s) =
    let spaced = spaced_from true s in
    let plain = spaced_from false s in
    if c == 32 then not after && spaced else not (is_space c) && not (is_invisible c) && plain

space_kinds : (c : ℕ) → c ≡ 32 → (is_space c ≡ true) × (is_invisible c ≡ false)
unfolding is_space is_invisible
space_kinds c e = (rw e refl, rw e refl)

collapsed :
    (inside : Bool) (s : Text)
    → spaced_from inside (collapse inside (strip_invisible_characters s)) ≡ true
unfolding spaced_from collapse strip_invisible_characters
collapsed inside [] = refl
collapsed inside (c ∷ s) = ground (arith, space_kinds c, collapsed true s, collapsed false s)

trimmed_start :
    (after : Bool) (s : Text) → spaced_from after s ≡ true → spaced_from true (trim_start s) ≡ true
unfolding spaced_from trim_start
trimmed_start after [] e = refl
trimmed_start after (c ∷ s) e =
    ground (arith, e, space_kinds c, trimmed_start true s, trimmed_start false s)

trimmed_end :
    (after : Bool) (s : Text)
    → spaced_from after s ≡ true
    → (is_empty (trim_end s) || tidy_from after (trim_end s)) ≡ true
unfolding spaced_from trim_end tidy_from
trimmed_end after [] e = refl
trimmed_end after (c ∷ s) e =
    ground (arith, e, space_kinds c, trimmed_end true s, trimmed_end false s)

tidy_text : (s : Text) → (is_empty s || tidy_from true s) ≡ true → is_tidy s ≡ true
unfolding is_tidy
tidy_text [] e = refl
tidy_text (c ∷ s) e = ground (arith, e)

sanitized : (s : Text) → is_tidy (sanitize_display_text s) ≡ true
unfolding sanitize_display_text normalize_whitespace
sanitized s =
    let units = collapse false (strip_invisible_characters s) in
    tidy_text (trim_end (trim_start units))
      (trimmed_end true (trim_start units) (trimmed_start false units (collapsed false s)))

strip_tidy : (after : Bool) (s : Text) → tidy_from after s ≡ true → strip_invisible_characters s ≡ s
unfolding strip_invisible_characters tidy_from
strip_tidy after [] e = refl
strip_tidy after (c ∷ s) e = ground (arith, e, space_kinds c, strip_tidy true s, strip_tidy false s)

collapse_tidy : (after : Bool) (s : Text) → tidy_from after s ≡ true → collapse after s ≡ s
unfolding collapse tidy_from
collapse_tidy after [] e = refl
collapse_tidy after (c ∷ s) e =
    ground (arith, e, space_kinds c, collapse_tidy true s, collapse_tidy false s)

-- At the start of a text it makes no difference to the collapse whether a space came before.
collapse_start :
    (c : ℕ) (s : Text) → is_space c ≡ false → collapse false (c ∷ s) ≡ collapse true (c ∷ s)
unfolding collapse
collapse_start c s e = rw e refl

not_over : (s : Text) → tidy_from true s ≡ true → is_empty s ≡ false
unfolding tidy_from
not_over [] e = absurd (ground (arith, e))
not_over (c ∷ s) e = refl

trim_end_tidy : (after : Bool) (s : Text) → tidy_from after s ≡ true → trim_end s ≡ s
unfolding trim_end tidy_from
trim_end_tidy after [] e = refl
trim_end_tidy after (c ∷ s) e =
    ground (arith, e, space_kinds c, not_over s, trim_end_tidy true s, trim_end_tidy false s)

starts_plain : (c : ℕ) (s : Text) → tidy_from true (c ∷ s) ≡ true → is_space c ≡ false
unfolding tidy_from
starts_plain c s e = ground (arith, e)

nothing_kept : sanitize_display_text [] ≡ []
unfolding sanitize_display_text normalize_whitespace trim_end trim_start collapse
    strip_invisible_characters
nothing_kept = refl

kept_tidy : (s : Text) → is_tidy s ≡ true → sanitize_display_text s ≡ s
unfolding sanitize_display_text normalize_whitespace is_tidy trim_start
kept_tidy [] e = nothing_kept
kept_tidy (c ∷ s) e =
    let plain = starts_plain c s e in
    rw (strip_tidy true (c ∷ s) e, collapse_start c s plain, collapse_tidy true (c ∷ s) e, plain)
      (trim_end_tidy true (c ∷ s) e)

-- Whatever a user writes, the text that is stored has no invisible unit, no white space but single
-- spaces between other units, and is stored as it is when it is written again.
pub sanitize_display_text-is_tidy :
    (s : Text)
    → (is_tidy (sanitize_display_text s) ≡ true)
      × (sanitize_display_text (sanitize_display_text s) ≡ sanitize_display_text s)
sanitize_display_text-is_tidy s = (sanitized s, kept_tidy (sanitize_display_text s) (sanitized s))
