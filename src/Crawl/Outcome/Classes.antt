-- ===== src/Crawl/Outcome/Classes.antt =====
-- How `classify_job_outcome` of services/api/src/crawler.rs sorts the reports.
use find_verse.External.{Platform}
use find_verse.Quality.{is_spam}
use find_verse.Crawl.Rows.{Job}
use find_verse.Crawl.Outcome.{
  CrawlResult, checked_document, new_document, is_retryable_status, infer_failure_message,
  filter_or, indexed, infer_failure_kind, Document, JobOutcome, succeeded, retryable, gone,
  is_success, filtered_reason, build_document, retry_outcome, classify_failure,
  classify_job_outcome, is_blocked_result,
}
use find_verse.Prelude.{
  refl, trim, Bool-cases, ◌&&◌, if_elim, str_eq, unwrap_or, ℕ, ◌+◌, ◌≤◌, ◌<◌, max, String, Option,
  none, some, Bool, true, false, ◌≡◌, ◌||◌, inl, inr, ◌==◌, is_none, Option-cases, is_empty_str,
  arith,
}

-- What a retry promises.
abbrev pub IsRetry : ℕ → CrawlResult → Job → JobOutcome → Type 0
IsRetry clock r job (retryable kind message at) =
    (max job.attempt_count 1 < max job.max_attempts 1) × (clock + 30 ≤ at) × (at ≤ clock + 300)
IsRetry clock r job _ = Unit

is_none-none : (o : Option String) → is_none o ≡ true → o ≡ none
is_none-none none e = refl
is_none-none (some s) e = absurd (ground arith)

-- What a page has to be to enter the index.
abbrev pub IsAccepted : CrawlResult → JobOutcome → Type 0
IsAccepted r (succeeded d) =
    (is_success r.status_code ≡ true)
    × (r.error_kind ≡ none)
    × (d.source_job_id ≡ some r.job_id)
    × (is_empty_str d.title ≡ false)
    × (is_empty_str d.body ≡ false)
    × (is_spam d.body ≡ false)
IsAccepted r (gone kind message) = ((r.status_code == 404 || r.status_code == 410) ≡ true)
IsAccepted r _ = Unit

IsDocument : CrawlResult → Option Document → Type 0
IsDocument r none = Unit
IsDocument r (some d) =
    (is_success r.status_code ≡ true)
    × (d.source_job_id ≡ some r.job_id)
    × (is_empty_str d.title ≡ false)
    × (is_empty_str d.body ≡ false)
    × (is_spam d.body ≡ false)

checked_document-IsDocument :
    (platform : Platform) (r : CrawlResult) (title body : String)
    → is_success r.status_code ≡ true
    → IsDocument r (checked_document platform r title body)
unfolding checked_document new_document IsDocument
checked_document-IsDocument platform r title body ok =
    let refused = is_empty_str (trim title) || is_empty_str (trim body) || is_spam (trim body) in
    if_elim (IsDocument r) refused (λ _. tt)
      (λ e. (ok, refl, ground arith, ground arith, ground arith))

build_document-IsDocument :
    (platform : Platform) (r : CrawlResult) → IsDocument r (build_document platform r)
unfolding build_document IsDocument
build_document-IsDocument platform r = elim (Bool-cases (is_success r.status_code)) [
  | inr e ↦ rw e tt
  | inl ok ↦ elim (Option-cases r.title) [
    | inl e ↦ rw (ok, e) tt
    | inr (title, e) ↦ elim (Option-cases r.body) [
      | inl e' ↦ rw (ok, e, e') tt
      | inr (body, e') ↦ rw (ok, e, e') (checked_document-IsDocument platform r title body ok)
    ]
  ]
]

retry_outcome-IsAccepted :
    (platform : Platform) (clock : ℕ) (again : Bool) (kind message : String) (r : CrawlResult)
    (n m : ℕ)
    → IsAccepted r (retry_outcome platform clock again kind message n m)
unfolding retry_outcome
retry_outcome-IsAccepted platform clock again kind message r n m = ground arith

classify_failure-IsAccepted :
    (platform : Platform) (clock : ℕ) (r : CrawlResult) (job : Job)
    → IsAccepted r (classify_failure platform clock r job)
unfolding classify_failure
classify_failure-IsAccepted platform clock r job =
    let P = IsAccepted r in
    let kind = unwrap_or r.error_kind (infer_failure_kind r.status_code) in
    if_elim P (r.status_code == 404 || r.status_code == 410) (λ e. e)
      (λ _.
        if_elim P (is_blocked_result r.status_code kind) (λ _. tt)
          (λ _.
            if_elim P (str_eq (unwrap_or r.error_kind "") "requires_js_render") (λ _. tt)
              (λ _.
                retry_outcome-IsAccepted platform clock
                  (unwrap_or r.retryable (is_retryable_status r.status_code)) kind
                  (unwrap_or r.error_message (infer_failure_message r)) r (max job.attempt_count 1)
                  (max job.max_attempts 1))))

indexed-IsAccepted :
    (platform : Platform) (r : CrawlResult) (d : Option Document)
    → r.error_kind ≡ none
    → IsDocument r d
    → IsAccepted r (indexed platform d)
unfolding IsDocument
indexed-IsAccepted platform r none e h = tt
indexed-IsAccepted platform r (some d) e h = (h.0, e, h.1, h.2, h.3, h.4)

filter_or-IsAccepted :
    (platform : Platform) (r : CrawlResult) (reason : Option String) (o : JobOutcome)
    → IsAccepted r o
    → IsAccepted r (filter_or platform reason o)
filter_or-IsAccepted platform r none o h = h
filter_or-IsAccepted platform r (some reason) o h = tt

-- A report makes a job succeed with a document only if its status is a success, it names no error,
-- and the document, which names the job, has a title and a body and is no spam; and it drops the page
-- as gone only at 404 and 410.
pub classify_job_outcome-IsAccepted :
    (platform : Platform) (clock : ℕ) (r : CrawlResult) (job : Job)
    → IsAccepted r (classify_job_outcome platform clock r job)
unfolding classify_job_outcome
classify_job_outcome-IsAccepted platform clock r job =
    let P = IsAccepted r in
    if_elim P (r.status_code == 304) (λ _. tt)
      (λ _. filter_or-IsAccepted platform r (filtered_reason r) _ (
        if_elim P (is_success r.status_code && is_none r.error_kind)
          (λ e.
            indexed-IsAccepted platform r _ (is_none-none r.error_kind (ground arith))
              (build_document-IsDocument platform r))
          (λ _. classify_failure-IsAccepted platform clock r job)))
