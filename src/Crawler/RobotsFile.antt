-- ===== src/Crawler/RobotsFile.antt =====
-- services/crawler/src/fetch.rs: the crawl delay and the sitemaps of a robots.txt file, as text.
use Prim.Native.Char.{code}
use find_verse.External.{Platform}
use find_verse.Prelude.{
  ℕ, ◌+◌, ◌-◌, ◌*◌, List, [], ◌∷◌, ◌++◌, String, Option, none, some, Bool, true, false, not, ◌&&◌,
  ◌||◌, ltb, leb, ◌==◌, str_eq, unwrap_or, is_some, any, split_by, trim, strip_prefix, starts_with,
  to_ascii_lowercase, eq_ignore_ascii_case, is_empty_str, set_insert, if◌then◌else◌,
}

abbrev is_digit : ℕ → Bool
is_digit c = leb b'0' c && leb c b'9'

digits : String → ℕ → Option ℕ
digits String.[] n = some n
digits (String.◌∷◌ c s) n =
    let rest = digits s (n * 10 + (code c - b'0')) in if is_digit (code c) then rest else none

-- `parse::<u64>()`: digits after a plus sign at most, in range.
unfoldable pub parse_u64 : String → Option ℕ
unfolding digits strip_prefix is_empty_str
parse_u64 s =
    let body = unwrap_or (strip_prefix s "+") s in
    elim (if is_empty_str body then none else digits body 0) [
      | none ↦ none
      | some n ↦ if ltb n 18446744073709551616 then some n else none
    ]

abbrev second : List String → Option String
second [] = none
second (x ∷ []) = none
second (x ∷ y ∷ rest) = some y

abbrev first_or : List String → String → String
first_or [] d = d
first_or (x ∷ rest) d = x

-- line.split_once(':'), the second part
strip_after_colon : String → Option String
strip_after_colon String.[] = none
strip_after_colon (String.◌∷◌ c s) =
    let rest = strip_after_colon s in if code c == b':' then some s else rest

-- line.split(':').nth(1)
abbrev after_colon : String → Option String
after_colon line = second (split_by (λ c. c == b':') line)

abbrev lines : String → List String
lines text = split_by (λ c. c == 10) text

abbrev is_comment : String → Bool
is_comment line = is_empty_str line || starts_with line "#"

-- The sections that name the crawler come first, then those for everyone.
unfoldable pub section_priority : List String → ℕ
unfolding trim eq_ignore_ascii_case
section_priority agents =
    let names = λ (agent : String).
      eq_ignore_ascii_case (trim (first_or (split_by (λ c. c == b'#') agent) agent))
        "findversecrawler" in
    if any names agents then 2 else if any (str_eq "*") agents then 1 else 0

-- The state of the loop over the lines: the agents of the section, whether the line before named one,
-- the best delay so far with its priority, and the delay of the section.
pub record DelayScan : Type 0 where
  pub current_agents : List String
  pub in_agent_block : Bool
  pub best : Option (ℕ × ℕ)
  pub pending_delay : Option ℕ

unfoldable pub better : Option (ℕ × ℕ) → ℕ → Bool
better none priority = true
better (some best) priority = ltb best.0 priority

unfoldable pub flush_delay : DelayScan → Option (ℕ × ℕ)
unfolding section_priority better
flush_delay s = elim s.pending_delay [
  | none ↦ s.best
  | some delay ↦
      let priority = section_priority s.current_agents in
      if ltb 0 priority && better s.best priority then some (priority, delay) else s.best
]

module _ (platform : Platform) where
  open platform use {parse, to_lowercase}

  unfoldable pub scan_line : String → DelayScan → DelayScan
  unfolding trim is_empty_str strip_prefix split_by flush_delay parse_u64
  scan_line raw s =
      let line = trim raw in
      let lower = to_lowercase line in
      let opened = if s.in_agent_block then s else record {
        current_agents = [];
        in_agent_block = true;
        best = flush_delay s;
        pending_delay = none;
      } in
      if is_comment line
      then s
      else if starts_with lower "user-agent:"
      then elim (after_colon line) [
        | none ↦ opened
        | some agent ↦ record opened {
          current_agents = opened.current_agents ++ to_lowercase (trim agent) ∷ [];
        }
      ]
      else record s {
        in_agent_block = false;
        pending_delay =
            if starts_with lower "crawl-delay:"
            then elim (after_colon line) [
              | none ↦ s.pending_delay
              | some value ↦ elim (parse_u64 (trim value)) [
                | none ↦ s.pending_delay
                | some delay ↦ some delay
              ]
            ]
            else s.pending_delay;
      }

  unfoldable pub scan_lines : List String → DelayScan → DelayScan
  unfolding scan_line
  scan_lines [] s = s
  scan_lines (line ∷ rest) s = scan_lines rest (scan_line line s)

  unfoldable pub extract_crawl_delay : String → Option ℕ
  unfolding scan_lines flush_delay split_by
  extract_crawl_delay text =
      let start : DelayScan = record {
        current_agents = [];
        in_agent_block = false;
        best = none;
        pending_delay = none;
      } in
      elim (flush_delay (scan_lines (lines text) start)) [ none ↦ none | some best ↦ some best.1 ]

  -- The address of a line `Sitemap: …`, when it can be parsed.
  unfoldable pub sitemap_of : String → Option String
  unfolding trim is_empty_str strip_prefix to_ascii_lowercase strip_after_colon
  sitemap_of raw =
      let line = trim raw in
      if is_comment line || not (starts_with (to_ascii_lowercase line) "sitemap:")
      then none
      else elim (strip_after_colon line) [
        | none ↦ none
        | some rest ↦ if is_some (parse (trim rest)) then some (trim rest) else none
      ]

  unfoldable pub sitemaps_of : List String → List String
  unfolding sitemap_of set_insert
  sitemaps_of [] = []
  sitemaps_of (line ∷ rest) =
      let others = sitemaps_of rest in
      elim (sitemap_of line) [ none ↦ others | some url ↦ set_insert url others ]

  unfoldable pub extract_sitemap_urls_from_robots : String → List String
  unfolding sitemaps_of split_by
  extract_sitemap_urls_from_robots text = sitemaps_of (lines text)
