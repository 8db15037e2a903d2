-- ===== src/Quality.antt =====
-- services/api/src/quality/spam_detector.rs. The score is kept in tenths, and a ratio of two counts
-- is compared by multiplying out: for texts of less than a million words that is what the `f32`
-- comparisons give.
use Prim.Native.String
use find_verse.Prelude.{
  ℕ, suc, ◌+◌, ◌*◌, List, [], ◌∷◌, String, Bool, false, ltb, ◌==◌, any, length, str_eq, split_by,
  split_whitespace, if◌then◌else◌,
}
use text.Mathlib.Text.{starts_with}

-- The number of different entries, as the length of a `HashSet` of them.
unfoldable pub count_unique : List String → ℕ
count_unique [] = 0
count_unique (w ∷ ws) = let rest = count_unique ws in if any (str_eq w) ws then rest else suc rest

-- `text.matches(pattern).count()` for a pattern that does not overlap itself, such as "http".
unfoldable pub count_matches : String → String → ℕ
count_matches pattern String.[] = 0
count_matches pattern (String.◌∷◌ c s) =
    let rest = count_matches pattern s in
    if starts_with (String.◌∷◌ c s) pattern then suc rest else rest

unfoldable pub keyword_stuffing : String → Bool
unfolding count_unique split_whitespace
keyword_stuffing text =
    let words = split_whitespace text in
    if ltb (length words) 10 then false else ltb (10 * count_unique words) (3 * length words)

unfoldable pub excessive_links : String → Bool
unfolding count_matches split_whitespace
excessive_links text =
    let words = length (split_whitespace text) in
    if ltb words 50 then false else ltb words (10 * count_matches "http" text)

unfoldable pub repetitive_content : String → Bool
unfolding count_unique split_by
repetitive_content text =
    let sentences = split_by (λ c. c == b'.') text in
    if ltb (length sentences) 5 then false else ltb (2 * count_unique sentences) (length sentences)

abbrev tenths : ℕ → Bool → ℕ
tenths n b = if b then n else 0

unfoldable pub is_spam : String → Bool
unfolding keyword_stuffing excessive_links repetitive_content
is_spam body = ltb 5 (
    tenths 3 (keyword_stuffing body)
    + tenths 2 (excessive_links body)
    + tenths 2 (ltb (String.len body) 100)
    + tenths 3 (repetitive_content body))
