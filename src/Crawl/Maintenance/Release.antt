-- ===== src/Crawl/Maintenance/Release.antt =====
-- What the scheduler's recovery leaves behind (services/api/src/crawler.rs).
use find_verse.Crawl.Rows.{Job, is_queued, is_claimed}
use find_verse.Crawl.Admin.{is_dead}
use find_verse.Crawl.Store.{Db, push_event}
use find_verse.Crawl.Maintenance.{
  is_exhausted, take_back, held_since, is_late_claim, claim_timeout_message, requeue_rows,
  requeue_stale_jobs, take_back_events,
}
use find_verse.Prelude.{
  ℕ, ◌+◌, ◌-◌, ◌≤◌, max, List, [], ◌∷◌, String, Option, none, some, Bool, true, false, ◌&&◌, ◌≡◌,
  refl, sym, subst, ltb, leb, All, if_elim, count_where, update_where, select_where, arith,
}

take_back_events-jobs :
    (dead alive alive_status : String) (js : List Job) (db : Db)
    → (take_back_events dead alive alive_status js db).jobs ≡ db.jobs
unfolding take_back_events push_event
take_back_events-jobs dead alive alive_status [] db = refl
take_back_events-jobs dead alive alive_status (j ∷ js) db =
    take_back_events-jobs dead alive alive_status js _

-- The seconds since the job was claimed are more than the timeout; a job without a time is not late.
abbrev pub waited_over : ℕ → ℕ → Option ℕ → Bool
waited_over now timeout none = false
waited_over now timeout (some t) = ltb timeout (now - t)

-- A claimed job whose claim is older than the timeout. Jobs that are ingested are another sweep's.
abbrev pub is_overdue : ℕ → ℕ → Job → Bool
is_overdue now timeout j = is_claimed j.status && waited_over now timeout j.claimed_at

-- Overdue, with attempts left or without.
abbrev pub is_lost : ℕ → ℕ → Job → Bool
is_lost now timeout j =
    is_overdue now timeout j && leb (max j.max_attempts 1) (max j.attempt_count 1)

abbrev pub is_saved : ℕ → ℕ → Job → Bool
is_saved now timeout j =
    is_overdue now timeout j && ltb (max j.attempt_count 1) (max j.max_attempts 1)

-- What a sweep makes of the table: no claim is older than the timeout, and the counts.
abbrev pub IsSwept : ℕ → ℕ → List Job → List Job → Type 0
IsSwept now timeout before after =
    All (λ k. is_claimed k.status ≡ true → (t : ℕ) → k.claimed_at ≡ some t → now ≤ t + timeout)
      after
    × (count_where (λ j. is_queued j.status) after
        ≡ count_where (λ j. is_queued j.status) before + count_where (is_saved now timeout) before)
    × (count_where (λ j. is_dead j.status) after
        ≡ count_where (λ j. is_dead j.status) before + count_where (is_lost now timeout) before)

within :
    (now timeout : ℕ) (at : Option ℕ)
    → held_since now timeout at ≡ false
    → (t : ℕ) → at ≡ some t
    → now ≤ t + timeout
within now timeout at h t e =
    let late : ltb (t + timeout) now ≡ false = subst (λ o. held_since now timeout o ≡ false) e h in
    ground (arith, late)

overdue_lem :
    (now timeout : ℕ) (at : Option ℕ) → held_since now timeout at ≡ waited_over now timeout at
overdue_lem now timeout none = refl
overdue_lem now timeout (some t) = ground arith

requeue_counts :
    (now timeout : ℕ) (jobs : List Job)
    → IsSwept now timeout jobs (
        update_where
          (is_late_claim now timeout)
          (take_back now (now + 30) "claim_timeout" claim_timeout_message)
          jobs)
unfolding take_back is_exhausted
requeue_counts now timeout [] = (tt, refl, refl)
requeue_counts now timeout (j ∷ js) =
    let rest = requeue_counts now timeout js in
    let same = overdue_lem now timeout j.claimed_at in
    (
      (
        if_elim
            (λ (k : Job).
              is_claimed k.status ≡ true → (t : ℕ) → k.claimed_at ≡ some t → now ≤ t + timeout)
            (is_late_claim now timeout j) (λ _ c. ground (arith, c))
            (λ e c. within now timeout j.claimed_at (ground (arith, e, c))),
        rest.0,
      ),
      ground (arith, rest.1, same),
      ground (arith, rest.2, same),
    )

-- After the sweep no job is claimed since longer than the timeout. Of the claims that were, those with
-- attempts left are queued again and those without are dead letters: the counts of the queued jobs and
-- of the dead letters grow by just these.
pub requeue_stale_jobs-IsSwept :
    (now timeout : ℕ) (db : Db)
    → IsSwept now timeout db.jobs (requeue_stale_jobs now timeout db).jobs
unfolding requeue_stale_jobs requeue_rows
requeue_stale_jobs-IsSwept now timeout db =
    subst (IsSwept now timeout db.jobs)
      (sym (
        take_back_events-jobs "stale-job-dead-lettered" "stale-job-requeued" "ok"
          (select_where (is_late_claim now timeout) db.jobs) (requeue_rows now timeout db)))
      (requeue_counts now timeout db.jobs)
