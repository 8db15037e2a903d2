-- ===== src/Crawler/SiteRules/Override.antt =====
-- Which rule of services/crawler/src/site_profile/rules.rs has the last word on a page.
use find_verse.External.{Platform}
use find_verse.Crawler.SiteRules.{
  CompiledPageRule, EffectivePreset, PresetOverride, apply_override, first_match, decide,
  page_decision, PageDecision, matches_page, filtered_reason, is_deny,
}
use find_verse.Prelude.{
  List, [], ◌∷◌, ◌++◌, String, Option, none, some, true, false, ◌≡◌, refl, ap, is_some, or_else,
  All, unwrap_or, if_elim, arith,
}

module _ (platform : Platform) where
  open platform use {Url, parse}

  first_match-append :
      (rs ss : List CompiledPageRule) (url : Url)
      → first_match platform (rs ++ ss) url
        ≡ or_else (first_match platform rs url) (first_match platform ss url)
  unfolding first_match
  first_match-append [] ss url = refl
  first_match-append (r ∷ rs) ss url = ground (arith, first_match-append rs ss url)

  -- The rules hold none for the page, or this one, before which none matches.
  pub data IsFirst (url : Url) (rules : List CompiledPageRule)
      : Option CompiledPageRule → Type 0 where
    found :
        (before after : List CompiledPageRule) (rule : CompiledPageRule)
        → rules ≡ before ++ rule ∷ after
        → All (λ r. matches_page platform r url ≡ false) before
        → matches_page platform rule url ≡ true
        → IsFirst url rules (some rule)
    unfound : All (λ r. matches_page platform r url ≡ false) rules → IsFirst url rules none

  IsFirst-cons :
      (url : Url) (r : CompiledPageRule) (rules : List CompiledPageRule)
      (o : Option CompiledPageRule)
      → matches_page platform r url ≡ false
      → IsFirst url rules o
      → IsFirst url (r ∷ rules) o
  IsFirst-cons url r rules (some rule) e (found before after _ same none_before hit) =
      found (r ∷ before) after rule (ap (λ rs. r ∷ rs) same) (e, none_before) hit
  IsFirst-cons url r rules none e (unfound h) = unfound (e, h)

  first_match-IsFirst :
      (rules : List CompiledPageRule) (url : Url)
      → IsFirst url rules (first_match platform rules url)
  unfolding first_match
  first_match-IsFirst [] url = unfound tt
  first_match-IsFirst (r ∷ rules) url =
      if_elim (IsFirst url (r ∷ rules)) (matches_page platform r url)
        (λ hit. found [] rules r refl tt hit)
        (λ e. IsFirst-cons url r rules _ e (first_match-IsFirst rules url))

  -- Who decides on a page of a site that overrides a preset.
  pub data Verdict (base : EffectivePreset) (o : PresetOverride) (url : Url)
      : PageDecision → Type 0 where
    by_site :
        (rule : CompiledPageRule)
        → IsFirst url o.rules (some rule)
        → Verdict base o url (record { action = rule.action; reason = rule.reason })
    by_preset :
        (rule : CompiledPageRule)
        → IsFirst url o.rules none
        → IsFirst url base.rules (some rule)
        → Verdict base o url (record { action = rule.action; reason = rule.reason })
    by_default :
        (d : PageDecision)
        → IsFirst url o.rules none
        → IsFirst url base.rules none
        → d.action ≡ unwrap_or o.default_action base.default_action
        → is_some d.reason ≡ is_deny (unwrap_or o.default_action base.default_action)
        → Verdict base o url d

  verdict :
      (base : EffectivePreset) (o : PresetOverride) (url : Url)
      (site preset : Option CompiledPageRule)
      → IsFirst url o.rules site
      → IsFirst url base.rules preset
      → Verdict base o url (decide platform (apply_override base o) (or_else site preset))
  unfolding decide apply_override
  verdict base o url (some rule) preset s p = by_site rule s
  verdict base o url none (some rule) s p = by_preset rule s p
  verdict base o url none none s p = by_default _ s p refl (ground arith)

  -- A site that overrides a preset, for an address that can be parsed: its own first rule that matches
  -- the page decides; where none does, the first rule of the preset that matches; and where none does
  -- either, the default action of the site, or of the preset when the site has none, with a reason
  -- exactly when it is to deny the page.
  pub apply_override-page_decision :
      (base : EffectivePreset) (o : PresetOverride) (url : String) (parsed : Url)
      → parse url ≡ some parsed
      → Verdict base o parsed (page_decision platform (apply_override base o) url)
  unfolding page_decision apply_override
  apply_override-page_decision base o url parsed e =
      rw (page_decision, e, first_match-append o.rules base.rules parsed)
        (verdict base o parsed (first_match platform o.rules parsed)
          (first_match platform base.rules parsed) (first_match-IsFirst o.rules parsed)
          (first_match-IsFirst base.rules parsed))

  -- A page is filtered exactly when the action for it is to deny it.
  filtered_reason-deny :
      (p : EffectivePreset) (url : String)
      → is_some (filtered_reason platform p url) ≡ is_deny (page_decision platform p url).action
  unfolding filtered_reason
  filtered_reason-deny p url = ground arith
