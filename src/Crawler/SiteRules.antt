-- ===== src/Crawler/SiteRules.antt =====
-- services/crawler/src/site_profile/rules.rs and mod.rs: which pages of a site are taken, by the rules
-- of its preset. A compiled regular expression is the set of texts that it matches.
pub mod Override
use Prim.Native.Nat.{zero, suc}
use Prim.Native.String
use find_verse.External.{Platform}
use find_verse.Prelude.{
  ℕ, List, [], ◌∷◌, ◌++◌, String, Option, none, some, Bool, true, false, not, ◌&&◌, ◌||◌, str_eq,
  unwrap_or, is_some, any, is_empty, get, contains_str, ends_with, strip_prefix, starts_with,
  to_ascii_lowercase, set_insert, if◌then◌else◌,
}

pub data PageAction : Type 0 where
  allow_index_discover allow_index_only deny : PageAction

abbrev pub is_deny : PageAction → Bool
is_deny deny = true
is_deny _ = false

pub record PageDecision : Type 0 where
  pub action : PageAction
  pub reason : Option String

abbrev pub Regex : Type 0
Regex = String → Bool

pub record CompiledMatchRule : Type 0 where
  pub hosts : List String
  pub host_suffixes : List String
  pub path_prefixes : List String
  pub path_regexes : List Regex
  pub html_markers : List String
  pub html_regexes : List Regex

pub record CompiledPageRule : Type 0 where
  pub action : PageAction
  pub reason : Option String
  pub hosts : List String
  pub host_suffixes : List String
  pub path_exacts : List String
  pub path_prefixes : List String
  pub path_regex : Option Regex
  pub query_keys : List String
  pub query_values : List (String × String)
  pub query_value_prefixes : List (String × String)

pub record EffectivePreset : Type 0 where
  pub id : String
  pub prefer_js : Bool
  pub default_action : PageAction
  pub discovery_sources : List String
  pub rules : List CompiledPageRule

pub record PresetOverride : Type 0 where
  pub id : String
  pub prefer_js : Option Bool
  pub default_action : Option PageAction
  pub discovery_sources : List String
  pub rules : List CompiledPageRule

pub record PlatformIdentifier : Type 0 where
  pub preset : String
  pub matcher : CompiledMatchRule

pub record SitePreset : Type 0 where
  pub extends : Option String
  pub matcher : CompiledMatchRule
  pub preset : PresetOverride

pub record RuleRegistry : Type 0 where
  pub platform_identifiers : List PlatformIdentifier
  pub platform_presets : List (String × EffectivePreset)
  pub site_presets : List SitePreset

abbrev pub unknown_preset : EffectivePreset
unknown_preset = record {
  id = "unknown";
  prefer_js = false;
  default_action = allow_index_discover;
  discovery_sources = [];
  rules = [];
}

-- `s.contains(t)`
unfoldable pub has_text : String → String → Bool
unfolding strip_prefix
has_text String.[] t = starts_with String.[] t
has_text (String.◌∷◌ c s) t = starts_with (String.◌∷◌ c s) t || has_text s t

unfoldable pub path_starts_with_rule : (path rule : String) → Bool
unfolding ends_with strip_prefix
path_starts_with_rule path rule =
    if ends_with rule "/"
    then starts_with path rule
    else str_eq path rule
      || (elim (strip_prefix path rule) [ none ↦ false | some rest ↦ starts_with rest "/" ])

-- A list of conditions of which one has to hold, unless there are none.
abbrev pub holds_or_empty {ℓ} : {A : Type ℓ} → (A → Bool) → List A → Bool
holds_or_empty p xs = is_empty xs || any p xs

unfoldable pub has_suffix : (host suffix : String) → Bool
unfolding ends_with
has_suffix host suffix = str_eq host suffix || ends_with host (String.◌++◌ "." suffix)

-- `s.replace(pattern, by)`. A round takes a character at least, so one for each is enough.
replace_from : ℕ → (pattern by : String) → String → String
unfolding strip_prefix
replace_from zero pattern by s = s
replace_from (suc fuel) pattern by String.[] = String.[]
replace_from (suc fuel) pattern by (String.◌∷◌ c s) =
    let skipped = String.◌∷◌ c (replace_from fuel pattern by s) in
    elim (strip_prefix (String.◌∷◌ c s) pattern) [
      | none ↦ skipped
      | some rest ↦ String.◌++◌ by (replace_from fuel pattern by rest)
    ]

unfoldable pub resolved_source : (origin source : String) → String
unfolding has_text replace_from strip_prefix
resolved_source origin source =
    if has_text source "{origin}"
    then replace_from (String.len source) "{origin}" origin source
    else if starts_with source "https://" || starts_with source "http://"
    then source
    else if starts_with source "/"
    then String.◌++◌ origin source
    else String.◌++◌ origin (String.◌++◌ "/" source)

unfoldable pub sources_from : String → List String → List String
unfolding resolved_source set_insert
sources_from origin [] = []
sources_from origin (source ∷ rest) =
    set_insert (resolved_source origin source) (sources_from origin rest)

unfoldable pub discovery_sources : EffectivePreset → String → List String
unfolding sources_from
discovery_sources p origin = sources_from origin p.discovery_sources

unfoldable pub add_sources : List String → List String → List String
unfolding contains_str
add_sources sources [] = sources
add_sources sources (source ∷ rest) =
    add_sources (if contains_str sources source then sources else sources ++ source ∷ []) rest

-- The rules of the site come before those of the preset that it extends.
unfoldable pub apply_override : EffectivePreset → PresetOverride → EffectivePreset
unfolding add_sources
apply_override base o = record {
  id = o.id;
  prefer_js = unwrap_or o.prefer_js base.prefer_js;
  default_action = unwrap_or o.default_action base.default_action;
  discovery_sources = add_sources base.discovery_sources o.discovery_sources;
  rules = o.rules ++ base.rules;
}

module _ (platform : Platform) where
  open platform use {Url, parse, host_str, path, query_pairs}

  abbrev host_of : Url → String
  host_of url = to_ascii_lowercase (unwrap_or (host_str url) "")

  unfoldable pub matches_site : CompiledMatchRule → Url → String → Bool
  unfolding contains_str has_suffix path_starts_with_rule has_text to_ascii_lowercase
  matches_site m url html =
      let host = host_of url in
      let p = to_ascii_lowercase (path url) in
      holds_or_empty (str_eq host) m.hosts
      && holds_or_empty (has_suffix host) m.host_suffixes
      && holds_or_empty (path_starts_with_rule p) m.path_prefixes
      && holds_or_empty (λ regex. regex p) m.path_regexes
      && holds_or_empty (has_text html) m.html_markers
      && holds_or_empty (λ regex. regex html) m.html_regexes

  unfoldable pub matches_page : CompiledPageRule → Url → Bool
  unfolding has_suffix path_starts_with_rule strip_prefix to_ascii_lowercase
  matches_page r url =
      let host = host_of url in
      let p = to_ascii_lowercase (path url) in
      let pairs = query_pairs url in
      holds_or_empty (str_eq host) r.hosts
      && holds_or_empty (has_suffix host) r.host_suffixes
      && holds_or_empty (str_eq p) r.path_exacts
      && holds_or_empty (path_starts_with_rule p) r.path_prefixes
      && (elim r.path_regex [ none ↦ true | some regex ↦ regex p ])
      && (is_empty r.query_keys
          || any (λ (q : String × String). any (str_eq (to_ascii_lowercase q.0)) r.query_keys)
              pairs)
      && (is_empty r.query_values
          || any
              (λ (q : String × String).
                any
                  (λ (v : String × String).
                    str_eq (to_ascii_lowercase q.0) v.0 && str_eq (to_ascii_lowercase q.1) v.1)
                  r.query_values)
              pairs)
      && (is_empty r.query_value_prefixes
          || any
              (λ (q : String × String).
                any
                  (λ (v : String × String).
                    str_eq (to_ascii_lowercase q.0) v.0 && starts_with (to_ascii_lowercase q.1) v.1)
                  r.query_value_prefixes)
              pairs)

  -- The first rule that matches decides.
  unfoldable pub first_match : List CompiledPageRule → Url → Option CompiledPageRule
  unfolding matches_page
  first_match [] url = none
  first_match (r ∷ rs) url =
      let rest = first_match rs url in if matches_page r url then some r else rest

  unfoldable pub decide : EffectivePreset → Option CompiledPageRule → PageDecision
  decide p (some rule) = record { action = rule.action; reason = rule.reason }
  decide p none = record {
    action = p.default_action;
    reason =
        if is_deny p.default_action
        then some (String.◌++◌ "page skipped by " (String.◌++◌ p.id " preset"))
        else none;
  }

  unfoldable pub page_decision : EffectivePreset → String → PageDecision
  unfolding first_match decide
  page_decision p url = elim (parse url) [
    | none ↦ record { action = p.default_action; reason = none }
    | some parsed ↦ decide p (first_match p.rules parsed)
  ]

  unfoldable pub page_action : EffectivePreset → String → PageAction
  unfolding page_decision
  page_action p url = (page_decision p url).action

  unfoldable pub filtered_reason : EffectivePreset → String → Option String
  unfolding page_decision
  filtered_reason p url =
      let decision = page_decision p url in
      if is_deny decision.action
      then some
          (unwrap_or decision.reason (String.◌++◌ "page skipped by " (String.◌++◌ p.id " preset")))
      else none

  find_platform : List PlatformIdentifier → Url → String → Option PlatformIdentifier
  unfolding matches_site
  find_platform [] url html = none
  find_platform (i ∷ is) url html =
      let rest = find_platform is url html in
      if matches_site i.matcher url html then some i else rest

  find_site : List SitePreset → Url → String → Option SitePreset
  unfolding matches_site
  find_site [] url html = none
  find_site (s ∷ ss) url html =
      let rest = find_site ss url html in if matches_site s.matcher url html then some s else rest

  -- The preset of the platform that is found, if it is there.
  base_preset : RuleRegistry → Option PlatformIdentifier → Option EffectivePreset
  base_preset g none = some unknown_preset
  base_preset g (some identifier) = get identifier.preset g.platform_presets

  extended : RuleRegistry → EffectivePreset → Option SitePreset → Option EffectivePreset
  unfolding apply_override
  extended g base none = some base
  extended g base (some site) = elim site.extends [
    | none ↦ some (apply_override base site.preset)
    | some name ↦ elim (get name g.platform_presets) [
      | none ↦ none
      | some preset ↦ some (apply_override preset site.preset)
    ]
  ]

  -- `none` stands for an error: an address that cannot be parsed, or a preset that is missing.
  unfoldable pub detect : RuleRegistry → (url html : String) → Option EffectivePreset
  unfolding find_platform find_site base_preset extended to_ascii_lowercase
  detect g url html = elim (parse url) [
    | none ↦ none
    | some parsed ↦
        let lowered = to_ascii_lowercase html in
        elim (base_preset g (find_platform g.platform_identifiers parsed lowered)) [
          | none ↦ none
          | some base ↦ extended g base (find_site g.site_presets parsed lowered)
        ]
  ]
