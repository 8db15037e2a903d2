-- ===== src/Crawl/Rules/Offers.antt =====
-- Which seeds `apply_due_rules` of services/api/src/crawler.rs offers, and when they come back.
use find_verse.External.{Platform}
use find_verse.Crawl.Store.{Db, Rule}
use find_verse.Crawl.Enqueue.{enqueue_urls}
use find_verse.Crawl.Rules.{
  interval_over, is_due, rule_request, stamp_rule, apply_rule, apply_rules, apply_due_rules,
}
use find_verse.Crawl.Rules.Due.{IsResting, note_rule-rules, apply_due_rules_rest}
use find_verse.Prelude.{
  ℕ, ◌+◌, ◌*◌, ◌<◌, List, [], ◌∷◌, map, String, Option, none, some, Bool, true, false, ◌&&◌, ◌||◌,
  not, ◌≡◌, ◌≢◌, refl, sym, ap, ◌∙◌, str_eq, eq_refl, eq_iff, any, ltb, if_elim, All, Elem,
  Elem-All, All-imp, All-Elem_self, Pairwise, select_where, inl, inr, if◌then◌else◌, arith,
}

-- The rules' ids are a key of their table.
abbrev pub HasUniqueRules : List Rule → Type 0
HasUniqueRules rules = Pairwise (λ (x y : Rule). x.id ≢ y.id) rules

-- The interval, in minutes, is not over when fewer seconds have passed than it has.
abbrev pub has_to_wait : ℕ → ℕ → Option ℕ → Bool
has_to_wait now minutes none = false
has_to_wait now minutes (some last) = ltb now (last + 60 * minutes)

-- What becomes of a rule: it is stamped if it is enabled and does not have to wait, and else left alone.
abbrev pub offered : ℕ → Rule → Rule
offered now x =
    if x.enabled && not (has_to_wait now x.interval_minutes x.last_enqueued_at)
    then record x { last_enqueued_at = some now }
    else x

abbrev stamped : ℕ → Rule → Rule
stamped now x = record x { last_enqueued_at = some now }

stamps : ℕ → List Rule → List Rule → List Rule
stamps now [] rules = rules
stamps now (r ∷ left) rules = stamps now left (stamp_rule now r.id rules)

module _ (platform : Platform) (now : ℕ) (budget : Rule → String) (new_id : Rule → ℕ → String) where
  apply_rules-stamps :
      (left : List Rule) (db : Db)
      → (apply_rules platform now budget new_id left db).rules ≡ stamps now left db.rules
  unfolding apply_rules apply_rule stamps
  apply_rules-stamps [] db = refl
  apply_rules-stamps (rule ∷ left) db =
      apply_rules-stamps left (apply_rule platform now (budget rule) (new_id rule) rule db)
      ∙ ap (stamps now left) (
          note_rule-rules rule
            (enqueue_urls platform db.blacklist (rule_request (budget rule) rule) now (new_id rule)
              db.origins db.jobs)
            (record db { rules = stamp_rule now rule.id db.rules }))

stamps-nil : (now : ℕ) (left : List Rule) → stamps now left [] ≡ []
unfolding stamps stamp_rule
stamps-nil now [] = refl
stamps-nil now (r ∷ left) = stamps-nil now left

-- A row is stamped when one of the rules has its id.
abbrev marked : ℕ → List Rule → Rule → Rule
marked now left x = if any (λ r. str_eq x.id r.id) left then stamped now x else x

marked_again :
    (now : ℕ) (r : Rule) (left : List Rule) (x : Rule)
    → marked now left (if str_eq x.id r.id then stamped now x else x) ≡ marked now (r ∷ left) x
marked_again now r left x =
    elim (str_eq x.id r.id)
      as (λ (b : Bool).
        marked now left (if b then stamped now x else x)
        ≡ (if b || any (λ y. str_eq x.id y.id) left then stamped now x else x)) [
          | false ↦ refl
          | true ↦
              if_elim (λ (y : Rule). y ≡ stamped now x) (any (λ y. str_eq x.id y.id) left)
                (λ _. refl) (λ _. refl)
        ]

stamps-cons :
    (now : ℕ) (left : List Rule) (x : Rule) (xs : List Rule)
    → stamps now left (x ∷ xs) ≡ marked now left x ∷ stamps now left xs
unfolding stamps stamp_rule
stamps-cons now [] x xs = refl
stamps-cons now (r ∷ left) x xs =
    stamps-cons now left (if str_eq x.id r.id then stamped now x else x) (stamp_rule now r.id xs)
    ∙ ap (λ y. y ∷ stamps now left (stamp_rule now r.id xs)) (marked_again now r left x)

unlisted :
    (p : Rule → Bool) (x : Rule) (rules : List Rule)
    → All (λ y. y.id ≢ x.id) rules
    → any (λ r. str_eq x.id r.id) (select_where p rules) ≡ false
unlisted p x [] h = refl
unlisted p x (r ∷ rules) h = ground (arith, unlisted p x rules h.1, eq_iff x.id r.id, h.0)

-- Where ids are a key, the rules that a test selects are told by their ids.
selected :
    (p : Rule → Bool) (rules : List Rule)
    → HasUniqueRules rules
    → (x : Rule) → Elem x rules
    → any (λ r. str_eq x.id r.id) (select_where p rules) ≡ p x
selected p [] u x m = absurd m
selected p (r ∷ rules) u x (inl e) = rw (sym e) (
    if_elim (λ (left : List Rule). any (λ y. str_eq r.id y.id) left ≡ p r) (p r)
      (λ t. ground (arith, eq_refl r.id, t))
      (λ f.
        unlisted p r rules
          (All-imp (λ y. r.id ≢ y.id) (λ y. y.id ≢ r.id) (λ y h q. h (sym q)) rules u.0)
        ∙ sym f))
selected p (r ∷ rules) u x (inr m) =
    let other = Elem-All (λ y. r.id ≢ y.id) x rules u.0 m in
    let apart : x.id ≢ r.id = λ q. other (sym q) in
    let ih = selected p rules u.1 x m in
    if_elim (λ (left : List Rule). any (λ y. str_eq x.id y.id) left ≡ p x) (p r)
      (λ _. ground (arith, ih, eq_iff x.id r.id, apart)) (λ _. ih)

interval_lem :
    (now minutes : ℕ) (at : Option ℕ)
    → interval_over now minutes at ≡ not (has_to_wait now minutes at)
interval_lem now minutes none = refl
interval_lem now minutes (some last) = ground arith

due_offered : (now : ℕ) (x : Rule) → (if is_due now x then stamped now x else x) ≡ offered now x
due_offered now x =
    ap (λ b. if x.enabled && b then stamped now x else x)
      (interval_lem now x.interval_minutes x.last_enqueued_at)

stamps-map :
    (now : ℕ) (left rules : List Rule)
    → All (λ x. any (λ r. str_eq x.id r.id) left ≡ is_due now x) rules
    → stamps now left rules ≡ map (offered now) rules
stamps-map now left [] h = stamps-nil now left
stamps-map now left (x ∷ xs) h =
    stamps-cons now left x xs
    ∙ ap (λ y. y ∷ stamps now left xs)
        (ap (λ b. if b then stamped now x else x) h.0 ∙ due_offered now x)
    ∙ ap (λ ys. offered now x ∷ ys) (stamps-map now left xs h.1)

-- Where the ids of the rules are distinct: one run stamps just the enabled rules that were never offered
-- or whose interval, of minutes, is over, and leaves every other rule as it was. After it, each enabled
-- rule with an interval of a minute or more was offered and has to wait again.
pub apply_due_rules-offered :
    (platform : Platform) (now : ℕ) (budget : Rule → String) (new_id : Rule → ℕ → String) (db : Db)
    → HasUniqueRules db.rules
    → let out = apply_due_rules platform now budget new_id db in
      (out.rules ≡ map (offered now) db.rules)
      × All (λ x. x.enabled ≡ true → 0 < x.interval_minutes → IsResting now x) out.rules
unfolding apply_due_rules
apply_due_rules-offered platform now budget new_id db u =
    let left = select_where (is_due now) db.rules in
    (
      apply_rules-stamps platform now budget new_id left db
          ∙ stamps-map now left db.rules (
              All-imp (λ x. Elem x db.rules) (λ x. any (λ r. str_eq x.id r.id) left ≡ is_due now x)
                (selected (is_due now) db.rules u) db.rules (All-Elem_self db.rules)),
      apply_due_rules_rest platform now budget new_id db,
    )
