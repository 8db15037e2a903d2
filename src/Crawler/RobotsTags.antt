-- ===== src/Crawler/RobotsTags.antt =====
-- services/crawler/src/extract.rs and models.rs: the directives of X-Robots-Tag headers.
use Prim.Native.Char.{code}
use find_verse.Prelude.{
  List, [], ◌∷◌, String, Option, none, some, Bool, true, false, ◌||◌, ◌==◌, str_eq, split_by, trim,
  is_empty_str, to_ascii_lowercase, if◌then◌else◌,
}

pub record RobotsDirectives : Type 0 where
  pub noindex : Bool
  pub nofollow : Bool

abbrev no_directives : RobotsDirectives
no_directives = record { noindex = false; nofollow = false }

-- `RobotsDirectives::merge`
abbrev pub merge : RobotsDirectives → RobotsDirectives → RobotsDirectives
merge a b = record { noindex = a.noindex || b.noindex; nofollow = a.nofollow || b.nofollow }

unfoldable pub read_token : String → RobotsDirectives
unfolding trim to_ascii_lowercase
read_token token =
    let word = to_ascii_lowercase (trim token) in
    record {
      noindex = str_eq word "none" || str_eq word "noindex";
      nofollow = str_eq word "none" || str_eq word "nofollow";
    }

unfoldable pub merge_tokens : List String → RobotsDirectives → RobotsDirectives
unfolding read_token
merge_tokens [] d = d
merge_tokens (token ∷ rest) d = merge_tokens rest (merge d (read_token token))

unfoldable pub parse_robots_directives : String → RobotsDirectives
unfolding merge_tokens split_by
parse_robots_directives value =
    merge_tokens (split_by (λ c. c == b',' || c == b';') value) no_directives

unfoldable pub applies_to_findverse : Option String → Bool
applies_to_findverse none = true
applies_to_findverse (some agent) = str_eq agent "*" || str_eq agent "findversecrawler"

-- `split_once(':')`
unfoldable pub split_colon : String → Option (String × String)
split_colon String.[] = none
split_colon (String.◌∷◌ c s) =
    let rest = split_colon s in
    if code c == b':'
    then some ("", s)
    else elim rest [ none ↦ none | some parts ↦ some (String.◌∷◌ c parts.0, parts.1) ]

-- The agent that a segment is for, and its directives.
unfoldable pub named_segment :
    Option String → String → Option (String × String) → Option String × String
unfolding trim to_ascii_lowercase
named_segment scoped segment none = (scoped, segment)
named_segment scoped segment (some parts) = (some (to_ascii_lowercase (trim parts.0)), trim parts.1)

-- One segment of a header, with the agent of the segments before it, and the directives so far.
unfoldable pub read_segment :
    String → Option String × RobotsDirectives → Option String × RobotsDirectives
unfolding trim is_empty_str to_ascii_lowercase split_colon named_segment applies_to_findverse
    parse_robots_directives
read_segment raw (scoped, d) =
    let segment = trim raw in
    let found = named_segment scoped segment (split_colon segment) in
    if is_empty_str segment then (scoped, d) else (
      found.0,
      if applies_to_findverse found.0 then merge d (parse_robots_directives found.1) else d,
    )

unfoldable pub read_segments : List String → Option String × RobotsDirectives → RobotsDirectives
unfolding read_segment
read_segments [] state = state.1
read_segments (segment ∷ rest) state = read_segments rest (read_segment segment state)

unfoldable pub read_headers : List String → RobotsDirectives → RobotsDirectives
unfolding read_segments split_by
read_headers [] d = d
read_headers (value ∷ rest) d =
    read_headers rest (read_segments (split_by (λ c. c == b',') value) (none, d))

unfoldable pub parse_x_robots_tag_values : List String → RobotsDirectives
unfolding read_headers
parse_x_robots_tag_values values = read_headers values no_directives
