-- ===== src/Crawl/Enqueue/Unique.antt =====
-- The key (`owner_developer_id`, `url`) of `crawl_jobs` under `enqueue_urls`.
use find_verse.External.{Platform}
use find_verse.Crawl.Rows.{Job, Origin}
use find_verse.Crawl.Enqueue.{
  EnqueueRequest, Queue, same_url, superseded, is_new, new_job, drop_finished, insert_url,
  enqueue_urls,
}
use find_verse.Crawl.Enqueue.Loop.{enqueue_loop_inv}
use find_verse.Prelude.{
  ℕ, List, [], ◌∷◌, ◌++◌, String, Bool, false, ◌||◌, ◌≡◌, refl, eq_iff, any, delete_where, arith,
}

-- No two jobs of one owner have the same address.
abbrev pub HasUniqueUrls : List Job → Type 0
HasUniqueUrls [] = Unit
HasUniqueUrls (j ∷ js) = (any (same_url j.owner j.url) js ≡ false) × HasUniqueUrls js

any-append : (p : Job → Bool) (js : List Job) (k : Job) → any p (js ++ k ∷ []) ≡ any p js || p k
any-append p [] k = ground arith
any-append p (j ∷ js) k = ground (arith, any-append p js k)

any-delete_where :
    (p q : Job → Bool) (js : List Job) → any p js ≡ false → any p (delete_where q js) ≡ false
any-delete_where p q [] h = refl
any-delete_where p q (j ∷ js) h = ground (arith, any-delete_where p q js)

pub HasUniqueUrls-delete_where :
    (q : Job → Bool) (js : List Job) → HasUniqueUrls js → HasUniqueUrls (delete_where q js)
HasUniqueUrls-delete_where q [] h = tt
HasUniqueUrls-delete_where q (j ∷ js) h =
    ground (arith, any-delete_where (same_url j.owner j.url) q js, HasUniqueUrls-delete_where q js)

same_url_comm : (j k : Job) → same_url j.owner j.url k ≡ same_url k.owner k.url j
same_url_comm j k =
    ground (
      arith,
      eq_iff j.owner k.owner,
      eq_iff k.owner j.owner,
      eq_iff j.url k.url,
      eq_iff k.url j.url,
    )

HasUniqueUrls-append :
    (js : List Job) (k : Job)
    → HasUniqueUrls js
    → any (same_url k.owner k.url) js ≡ false
    → HasUniqueUrls (js ++ k ∷ [])
HasUniqueUrls-append [] k h e = ground arith
HasUniqueUrls-append (j ∷ js) k h e =
    ground (
      arith,
      any-append (same_url j.owner j.url) js k,
      same_url_comm j k,
      HasUniqueUrls-append js k,
    )

module _ (platform : Platform) (blacklist : List String) (r : EnqueueRequest) (now : ℕ) where
  insert_url-HasUniqueUrls :
      (id : String) (q : Queue) (found : String × String)
      → HasUniqueUrls q.jobs
      → HasUniqueUrls (insert_url platform r now id q found).jobs
  unfolding insert_url drop_finished is_new
  insert_url-HasUniqueUrls id q (url, key) h = ground (
    arith,
    HasUniqueUrls-delete_where (superseded platform r url) q.jobs h,
    HasUniqueUrls-append (drop_finished platform r url q.jobs) (new_job platform r now id url key),
  )

-- After `enqueue_urls` no owner has two jobs for one address, if that held before.
pub enqueue_urls-HasUniqueUrls :
    (platform : Platform) (blacklist : List String) (r : EnqueueRequest) (now : ℕ)
    (new_id : ℕ → String) (origins : List Origin) (jobs : List Job)
    → HasUniqueUrls jobs
    → HasUniqueUrls (enqueue_urls platform blacklist r now new_id origins jobs).jobs
unfolding enqueue_urls
enqueue_urls-HasUniqueUrls platform blacklist r now new_id origins jobs h =
    enqueue_loop_inv platform blacklist r now (λ q. HasUniqueUrls q.jobs)
      (insert_url-HasUniqueUrls platform blacklist r now) new_id 0 r.urls _ h
