-- ===== src/Crawl/Outcome.antt =====
-- services/api/src/crawler.rs: what becomes of a job when its report is applied.
pub mod Classes
use Prim.Native.String
use find_verse.External.{Platform}
use find_verse.Common.Address.{normalize_url, extract_host, display_url}
use find_verse.Common.Scope.{same_domain, host_matches_scope}
use find_verse.Common.Digest.{stable_document_id, content_hash}
use find_verse.Common.Terms.{derive_terms, word_count}
use find_verse.Crawl.Rows.{Job}
use find_verse.Quality.{is_spam}
use find_verse.Prelude.{
  ℕ, ◌+◌, max, min, List, [], ◌∷◌, String, Option, none, some, Bool, true, false, ◌&&◌, ◌||◌,
  str_eq, ltb, leb, ◌==◌, or_else, unwrap_or, is_none, print_decimal, trim, is_empty_str,
  take_chars, if◌then◌else◌,
}

-- `CrawlResultInput` of services/api/src/models.rs, less `site_authority`. A relevance score is the
-- bit pattern of its `f32`.
pub record CrawlResult : Type 0 where
  pub job_id : String
  pub url : String
  pub status_code : ℕ
  pub fetched_at : ℕ
  pub final_url : Option String
  pub redirect_chain : List String
  pub content_type : Option String
  pub title : Option String
  pub snippet : Option String
  pub body : Option String
  pub canonical_hint : Option String
  pub canonical_source : Option String
  pub language : Option String
  pub discovered_urls : List String
  pub llm_should_index : Option Bool
  pub llm_should_discover : Option Bool
  pub llm_relevance_score : Option ℕ
  pub llm_reason : Option String
  pub retryable : Option Bool
  pub error_kind : Option String
  pub error_message : Option String
  pub site_profile_id : Option String
  pub network : String
  pub http_etag : Option String
  pub http_last_modified : Option String
  pub applied_crawl_delay_secs : Option ℕ
  pub retry_after_secs : Option ℕ
  pub robots_status : Option String
  pub robots_sitemaps : List String
  pub render_mode : String

-- `IndexedDocument` of services/api/src/models.rs, less `site_authority` and the version constants.
pub record Document : Type 0 where
  pub id : String
  pub title : String
  pub url : String
  pub display_url : String
  pub snippet : String
  pub body : String
  pub language : String
  pub last_crawled_at : ℕ
  pub canonical_url : String
  pub host : Option String
  pub content_hash : Option String
  pub suggest_terms : List String
  pub content_type : String
  pub word_count : ℕ
  pub network : String
  pub source_job_id : Option String
  pub duplicate_of : Option String

pub data JobOutcome : Type 0 where
  succeeded : Document → JobOutcome
  filtered : (reason : String) → JobOutcome
  retryable : (kind message : String) (next_retry_at : ℕ) → JobOutcome
  requires_js_render : (message : String) → JobOutcome
  blocked failed dead_letter gone : (kind message : String) → JobOutcome

unfoldable pub is_success : ℕ → Bool
is_success code = leb 200 code && ltb code 300

unfoldable pub infer_failure_kind : ℕ → String
unfolding print_decimal
infer_failure_kind code =
    if code == 599
    then "network_error"
    else if code == 401 || code == 403
    then "blocked"
    else if code == 404
    then "http_404"
    else if code == 408
    then "timeout"
    else if code == 429
    then "http_429"
    else if leb 500 code && leb code 599
    then "http_5xx"
    else String.◌++◌ "http_" (print_decimal code)

unfoldable pub infer_failure_message : CrawlResult → String
unfolding print_decimal
infer_failure_message r =
    let base = String.◌++◌ "fetch returned status " (print_decimal r.status_code) in
    elim r.content_type [
      | none ↦ base
      | some content_type ↦ String.◌++◌ base (String.◌++◌ " (" (String.◌++◌ content_type ")"))
    ]

unfoldable pub is_retryable_status : ℕ → Bool
is_retryable_status code = code == 408 || code == 425 || code == 429 || code == 599 || leb 500 code

unfoldable pub is_blocked_result : ℕ → String → Bool
is_blocked_result code kind =
    code == 401
    || code == 403
    || str_eq kind "robots"
    || str_eq kind "blocked"
    || str_eq kind "robots_blocked"

unfoldable pub backoff_seconds_for_attempt : ℕ → ℕ
backoff_seconds_for_attempt attempt =
    if leb attempt 1 then 30 else if attempt == 2 then 120 else 300

-- The reason for a page that the language model turned down.
abbrev llm_filter : Option Bool → Option String → Option String
llm_filter (some false) reason = some (unwrap_or reason "page filtered by llm")
llm_filter _ reason = none

abbrev kind_filter : CrawlResult → Option String → Option String
kind_filter r none = llm_filter r.llm_should_index r.llm_reason
kind_filter r (some kind) =
    if str_eq kind "blacklisted_domain"
    then some (unwrap_or r.error_message "domain is blacklisted")
    else if str_eq kind "site_profile_filtered"
    then some (unwrap_or r.error_message "page skipped by site profile rules")
    else if str_eq kind "page_noindex"
    then some (unwrap_or r.error_message "page filtered by robots directives")
    else none

unfoldable pub filtered_reason : CrawlResult → Option String
unfolding is_success
filtered_reason r = if is_success r.status_code then kind_filter r r.error_kind else none

abbrev pub finalized_url : CrawlResult → String
finalized_url r = unwrap_or r.final_url r.url

infixl 5 ◌>>=◌
abbrev ◌>>=◌ {ℓ κ} : {A : Type ℓ} {B : Type κ} → Option A → (A → Option B) → Option B
none >>= k = none
some a >>= k = k a

module _ (platform : Platform) where
  unfoldable pub trusted_canonical_url : CrawlResult → Option String
  unfolding host_matches_scope extract_host normalize_url
  trusted_canonical_url r = do
    hint ← r.canonical_hint
    canonical ← normalize_url platform hint
    final ← normalize_url platform (finalized_url r)
    canonical_host ← extract_host platform canonical
    final_host ← extract_host platform final
    if host_matches_scope platform canonical_host final_host same_domain
          || host_matches_scope platform final_host canonical_host same_domain
        then some canonical
        else none

  -- The document of a page, from its trimmed title and body.
  unfoldable pub new_document : CrawlResult → String → String → Document
  unfolding trusted_canonical_url trim take_chars display_url stable_document_id content_hash
      derive_terms word_count
  new_document r clean_title clean_body =
      let canonical = unwrap_or (trusted_canonical_url r) (finalized_url r) in
      record {
        id = stable_document_id platform (finalized_url r);
        title = clean_title;
        url = finalized_url r;
        display_url = display_url platform canonical;
        snippet = take_chars 220 (trim (unwrap_or r.snippet clean_body));
        body = clean_body;
        language = unwrap_or r.language "unknown";
        last_crawled_at = r.fetched_at;
        canonical_url = canonical;
        host = extract_host platform canonical;
        content_hash = some (content_hash platform clean_body);
        suggest_terms = derive_terms platform clean_title clean_body;
        word_count = word_count clean_body;
        content_type = unwrap_or r.content_type "text/html";
        network = r.network;
        source_job_id = some r.job_id;
        duplicate_of = none;
      }

  -- `build_document` once it has the title and the body.
  unfoldable pub checked_document : CrawlResult → String → String → Option Document
  unfolding new_document is_spam trim is_empty_str
  checked_document r title body =
      let clean_title = trim title in
      let clean_body = trim body in
      if is_empty_str clean_title || is_empty_str clean_body || is_spam clean_body
      then none
      else some (new_document r clean_title clean_body)

  unfoldable pub build_document : CrawlResult → Option Document
  unfolding checked_document is_success
  build_document r = do
    title ← if is_success r.status_code then r.title else none
    body ← r.body
    checked_document r title body

  abbrev pub indexed : Option Document → JobOutcome
  indexed (some document) = JobOutcome.succeeded document
  indexed none =
      JobOutcome.failed "unindexable_document"
        "fetch succeeded but parsing produced no indexable document"

  -- The last tests of `classify_job_outcome`: whether a failure is tried again. `clock` is the time
  -- that `Utc::now()` gives there.
  unfoldable pub retry_outcome : ℕ → Bool → String → String → ℕ → ℕ → JobOutcome
  unfolding backoff_seconds_for_attempt
  retry_outcome clock again kind message attempts max_attempts =
      if again
      then (if ltb attempts max_attempts
          then JobOutcome.retryable kind message (clock + backoff_seconds_for_attempt attempts)
          else JobOutcome.dead_letter kind (String.◌++◌ message "; retries exhausted"))
      else JobOutcome.failed kind message

  unfoldable pub classify_failure : ℕ → CrawlResult → Job → JobOutcome
  unfolding is_blocked_result retry_outcome infer_failure_kind infer_failure_message
      is_retryable_status
  classify_failure clock r job =
      let kind = unwrap_or r.error_kind (infer_failure_kind r.status_code) in
      let message = unwrap_or r.error_message (infer_failure_message r) in
      let again = unwrap_or r.retryable (is_retryable_status r.status_code) in
      if r.status_code == 404 || r.status_code == 410
      then JobOutcome.gone kind message
      else if is_blocked_result r.status_code kind
      then JobOutcome.blocked kind message
      else if str_eq (unwrap_or r.error_kind "") "requires_js_render"
      then JobOutcome.requires_js_render message
      else retry_outcome clock again kind message (max job.attempt_count 1) (max job.max_attempts 1)

  abbrev pub filter_or : Option String → JobOutcome → JobOutcome
  filter_or (some reason) rest = JobOutcome.filtered reason
  filter_or none rest = rest

  unfoldable pub classify_job_outcome : ℕ → CrawlResult → Job → JobOutcome
  unfolding filtered_reason is_success build_document classify_failure
  classify_job_outcome clock r job =
      if r.status_code == 304
      then JobOutcome.filtered "304 Not Modified — content unchanged"
      else filter_or (filtered_reason r) (
          if is_success r.status_code && is_none r.error_kind
          then indexed (build_document r)
          else classify_failure clock r job)
