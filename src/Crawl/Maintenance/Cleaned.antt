-- ===== src/Crawl/Maintenance/Cleaned.antt =====
-- What `cleanup_blacklisted_domains` of services/api/src/crawler.rs leaves of the queue.
use find_verse.Crawl.Rows.{Job, is_active}
use find_verse.Crawl.Apply.{SearchIndex}
use find_verse.Crawl.Maintenance.Blacklist.{HostSql, is_host_of}
use find_verse.Prelude.{List, String, Bool, not, ◌||◌, any, unwrap_or}

module _ (sql : HostSql) (index : SearchIndex) where
  -- The address that a job ended at, or else its own, is of one of the domains.
  abbrev pub is_listed : List String → Job → Bool
  is_listed domains j =
      any (λ domain. is_host_of sql index domain (unwrap_or j.fetched.final_url j.url)) domains

  -- A crawler or the projector holds the job, or no domain lists it.
  abbrev pub stays : List String → Job → Bool
  stays domains j = is_active j.status || not (is_listed domains j)
