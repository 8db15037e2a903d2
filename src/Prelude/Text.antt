-- ===== src/Prelude/Text.antt =====
-- What the source uses of Rust's `str` and `char`, over the native texts.
use Prim.Native.Nat.{ℕ, zero, suc, ◌+◌, ◌-◌, ◌/◌, ◌%◌}
use Prim.Native.Char.{Char, code}
use Prim.Native.String
use Prim.Native.String.{String}
use mathlib.Core.Bool.{Bool, true, false, not, ◌&&◌, ◌||◌}
use mathlib.Core.Option.{Option, none, some}
use mathlib.Core.List.{List, [], ◌∷◌}
use text.Mathlib.Text.{◌==◌ as str_eq}
use find_verse.Prelude.Tests.{leb, ◌==◌, if◌then◌else◌, is_some}
use find_verse.Prelude.Lists.{any}
use find_verse.Prelude.Tables.{select_where}

-- `char::is_whitespace`: the code points with the property White_Space.
unfoldable pub is_whitespace : ℕ → Bool
is_whitespace c =
    (leb 9 c && leb c 13)
    || c == 32
    || c == 133
    || c == 160
    || c == 5760
    || (leb 8192 c && leb c 8202)
    || c == 8232
    || c == 8233
    || c == 8239
    || c == 8287
    || c == 12288

-- `to_ascii_lowercase` of one character.
unfoldable pub lower_char : Char → Char
lower_char c =
    if leb b'A' (code c) && leb (code c) b'Z'
    then String.char_at "abcdefghijklmnopqrstuvwxyz" (code c - b'A')
    else c

unfoldable pub to_ascii_lowercase : String → String
unfolding lower_char
to_ascii_lowercase String.[] = String.[]
to_ascii_lowercase (String.◌∷◌ c s) = String.◌∷◌ (lower_char c) (to_ascii_lowercase s)

unfoldable pub eq_ignore_ascii_case : String → String → Bool
unfolding to_ascii_lowercase
eq_ignore_ascii_case s t = str_eq (to_ascii_lowercase s) (to_ascii_lowercase t)

unfoldable pub is_empty_str : String → Bool
is_empty_str String.[] = true
is_empty_str (String.◌∷◌ c s) = false

-- `s.ends_with(t)`: some tail of `s`, `s` among them, is `t`.
unfoldable pub ends_with : String → String → Bool
ends_with String.[] t = str_eq String.[] t
ends_with (String.◌∷◌ c s) t = str_eq (String.◌∷◌ c s) t || ends_with s t

-- `s.strip_prefix(t)`
unfoldable pub strip_prefix : String → String → Option String
strip_prefix s String.[] = some s
strip_prefix String.[] (String.◌∷◌ d t) = none
strip_prefix (String.◌∷◌ c s) (String.◌∷◌ d t) = if code c == code d then strip_prefix s t else none

abbrev pub starts_with : String → String → Bool
starts_with s prefix = is_some (strip_prefix s prefix)

unfoldable pub trim_start_by : (ℕ → Bool) → String → String
trim_start_by p String.[] = String.[]
trim_start_by p (String.◌∷◌ c s) =
    let rest = trim_start_by p s in if p (code c) then rest else String.◌∷◌ c s

unfoldable pub trim_end_by : (ℕ → Bool) → String → String
unfolding is_empty_str
trim_end_by p String.[] = String.[]
trim_end_by p (String.◌∷◌ c s) =
    let rest = trim_end_by p s in
    if is_empty_str rest && p (code c) then String.[] else String.◌∷◌ c rest

unfoldable pub trim : String → String
unfolding is_whitespace trim_start_by trim_end_by
trim s = trim_end_by is_whitespace (trim_start_by is_whitespace s)

-- `s.chars().take(n).collect()`
unfoldable pub take_chars : ℕ → String → String
take_chars zero s = String.[]
take_chars (suc n) String.[] = String.[]
take_chars (suc n) (String.◌∷◌ c s) = String.◌∷◌ c (take_chars n s)

-- `parts.join(sep)`
unfoldable pub join : String → List String → String
join sep [] = ""
join sep (s ∷ []) = s
join sep (s ∷ t ∷ parts) = String.◌++◌ s (String.◌++◌ sep (join sep (t ∷ parts)))

unfoldable pub contains_str : List String → String → Bool
contains_str xs s = any (str_eq s) xs

push_front : Char → List String → List String
push_front c [] = String.◌∷◌ c String.[] ∷ []
push_front c (w ∷ ws) = String.◌∷◌ c w ∷ ws

-- One part is cut off at each character that `p` names, as `split` does.
unfoldable pub split_by : (ℕ → Bool) → String → List String
unfolding push_front
split_by p String.[] = "" ∷ []
split_by p (String.◌∷◌ c s) =
    let rest = split_by p s in if p (code c) then "" ∷ rest else push_front c rest

-- The words that `split_whitespace` gives: the parts that are not empty.
unfoldable pub split_whitespace : String → List String
unfolding split_by is_whitespace is_empty_str
split_whitespace s = select_where (λ w. not (is_empty_str w)) (split_by is_whitespace s)

-- The decimal digits of `n` in front of `acc`. Each round drops a digit, so `n + 1` rounds are enough.
decimal_from : ℕ → ℕ → String → String
decimal_from zero n acc = acc
decimal_from (suc fuel) n acc =
    let digits = String.◌∷◌ (String.char_at "0123456789" (n % 10)) acc in
    let rest = decimal_from fuel (n / 10) digits in if n / 10 == 0 then digits else rest

unfoldable pub print_decimal : ℕ → String
unfolding decimal_from
print_decimal n = decimal_from (n + 1) n ""
