-- ===== src/Crawl/Rules/Due.antt =====
-- When a rule comes back (`apply_due_rules` of services/api/src/crawler.rs).
use find_verse.External.{Platform}
use find_verse.Crawl.Store.{Db, Rule, push_event}
use find_verse.Crawl.Enqueue.{Queue, enqueue_urls}
use find_verse.Crawl.Rules.{
  interval_over, is_due, rule_request, stamp_rule, note_rule, apply_rule, apply_rules,
  apply_due_rules,
}
use find_verse.Prelude.{
  ℕ, ◌+◌, ◌*◌, ◌<◌, List, [], ◌∷◌, String, Option, none, some, true, false, is_some, ◌≡◌, refl, sym,
  subst, str_eq, eq_refl, any, ltb, if_elim, All, Elem, All-imp, All-Elem_self, select_where, inl,
  inr, arith,
}

-- A rule that still has its turn, or that has to wait by now.
abbrev Waits : ℕ → List Rule → Rule → Type 0
Waits now left x =
    0 < x.interval_minutes → any (λ r. str_eq x.id r.id) left ≡ false → is_due now x ≡ false

pub note_rule-rules : (rule : Rule) (q : Queue) (db : Db) → (note_rule rule q db).rules ≡ db.rules
unfolding note_rule push_event
note_rule-rules rule q db =
    if_elim (λ (d : Db). d.rules ≡ db.rules) (ltb 0 q.accepted) (λ _. refl) (λ _. refl)

stamp_rule-Waits :
    (now : ℕ) (rule : Rule) (left : List Rule) (rules : List Rule)
    → All (Waits now (rule ∷ left)) rules
    → All (Waits now left) (stamp_rule now rule.id rules)
unfolding stamp_rule
stamp_rule-Waits now rule left [] h = tt
stamp_rule-Waits now rule left (x ∷ xs) h = (
  if_elim (Waits now left) (str_eq x.id rule.id) (λ _ pos _. ground arith)
      (λ e pos out. h.0 pos (ground arith)),
  stamp_rule-Waits now rule left xs h.1,
)

due_rules-Waits :
    (now : ℕ) (rules : List Rule)
    → (x : Rule) → Elem x rules
    → Waits now (select_where (is_due now) rules) x
due_rules-Waits now [] x m pos out = absurd m
due_rules-Waits now (r ∷ rs) x (inl e) pos out = rw (sym e) (
    if_elim (λ (left : List Rule). any (λ y. str_eq r.id y.id) left ≡ false → is_due now r ≡ false)
      (is_due now r) (λ _ out'. ground (arith, eq_refl r.id)) (λ no _. no)
      (subst (λ y. any (λ z. str_eq y.id z.id) (select_where (is_due now) (r ∷ rs)) ≡ false) (sym e)
        out))
due_rules-Waits now (r ∷ rs) x (inr m) pos out = due_rules-Waits now rs x m pos (ground arith)

module _ (platform : Platform) (now : ℕ) (budget : Rule → String) (new_id : Rule → ℕ → String) where
  apply_rules-Waits :
      (left : List Rule) (db : Db)
      → All (Waits now left) db.rules
      → All (Waits now []) (apply_rules platform now budget new_id left db).rules
  unfolding apply_rules apply_rule
  apply_rules-Waits [] db h = h
  apply_rules-Waits (rule ∷ left) db h =
      apply_rules-Waits left (apply_rule platform now (budget rule) (new_id rule) rule db) (
        subst (All (Waits now left))
          (sym (
            note_rule-rules rule
              (enqueue_urls platform db.blacklist (rule_request (budget rule) rule) now
                (new_id rule) db.origins db.jobs)
              (record db { rules = stamp_rule now rule.id db.rules })))
          (stamp_rule-Waits now rule left db.rules h))

-- An enabled rule was offered, and its interval, of minutes, is not over at `now`.
abbrev pub IsResting : ℕ → Rule → Type 0
IsResting now x =
    (is_some x.last_enqueued_at ≡ true)
    × ((last : ℕ) → x.last_enqueued_at ≡ some last → now < last + x.interval_minutes * 60)

unfinished :
    (now minutes : ℕ) (at : Option ℕ)
    → interval_over now minutes at ≡ false
    → (is_some at ≡ true) × ((last : ℕ) → at ≡ some last → now < last + minutes * 60)
unfinished now minutes none h = ground (arith, h)
unfinished now minutes (some t) h = (
  refl,
  λ last e.
      let open' : interval_over now minutes (some last) ≡ false =
        subst (λ o. interval_over now minutes o ≡ false) e h in
      ground (arith, open'),
)

-- Once the due rules were applied, every enabled rule with an interval of a minute or more has been
-- offered at some time, and fewer seconds have passed since than its minutes have.
pub apply_due_rules_rest :
    (platform : Platform) (now : ℕ) (budget : Rule → String) (new_id : Rule → ℕ → String) (db : Db)
    → All
        (λ x. x.enabled ≡ true → 0 < x.interval_minutes → IsResting now x)
        (apply_due_rules platform now budget new_id db).rules
unfolding apply_due_rules
apply_due_rules_rest platform now budget new_id db =
    All-imp (Waits now []) (λ x. x.enabled ≡ true → 0 < x.interval_minutes → IsResting now x)
      (λ x h on pos.
        unfinished now x.interval_minutes x.last_enqueued_at (ground (arith, h pos refl, on)))
      _
      (apply_rules-Waits platform now budget new_id (select_where (is_due now) db.rules) db (
        All-imp (λ x. Elem x db.rules) _ (due_rules-Waits now db.rules) db.rules
          (All-Elem_self db.rules)))
