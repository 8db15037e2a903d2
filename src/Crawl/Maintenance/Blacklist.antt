-- ===== src/Crawl/Maintenance/Blacklist.antt =====
-- services/api/src/crawler.rs: `cleanup_blacklisted_domains`, which removes what the crawl holds of the
-- domains that are listed.
use Prim.Native.String
use find_verse.Crawl.Rows.{Job, Origin, is_done, is_queued}
use find_verse.Crawl.Apply.{SearchIndex}
use find_verse.Crawl.Store.{Db, Outcome}
use find_verse.Prelude.{
  List, [], ◌∷◌, String, none, some, Bool, not, ◌&&◌, ◌||◌, str_eq, any, delete_where,
  to_ascii_lowercase, unwrap_or, if◌then◌else◌,
}

-- What PostgreSQL computes: the host of an address by `split_part`, `regexp_replace` and `lower`, and
-- the test `like`.
pub record HostSql : Type 0 where
  pub host : String → String
  pub like : String → String → Bool

unfoldable pub domain_like_pattern : String → String
unfolding to_ascii_lowercase
domain_like_pattern domain = String.◌++◌ "%." (to_ascii_lowercase domain)

module _ (sql : HostSql) (index : SearchIndex) where
  abbrev pub is_host_of : String → String → Bool
  is_host_of domain address =
      str_eq (sql.host address) domain || sql.like (sql.host address) (domain_like_pattern domain)

  -- `status in ('queued', 'succeeded', 'failed', 'blocked', 'dead_letter')`
  abbrev pub is_removed : String → Job → Bool
  is_removed domain j =
      is_host_of domain (unwrap_or j.fetched.final_url j.url)
      && (is_queued j.status || is_done j.status)

  abbrev pub is_orphan : String → List Job → Origin → Bool
  is_orphan domain jobs o =
      is_host_of domain o.key
      && not (any (λ j. str_eq j.owner o.owner && str_eq j.origin o.key) jobs)

  -- The two deletions of one turn of the loop.
  unfoldable pub remove_domain : String → Db → Db
  remove_domain domain db =
      let jobs = delete_where (is_removed domain) db.jobs in
      record db { jobs = jobs; origins = delete_where (is_orphan domain jobs) db.origins }

  -- `indexed` says that there is an index to purge. Its error ends the loop and keeps what was done.
  unfoldable pub cleanup_domains : (indexed : Bool) → List String → Db → Outcome
  unfolding remove_domain
  cleanup_domains indexed [] db = (db, none)
  cleanup_domains indexed (domain ∷ domains) db =
      let purged = index.purge_site domain db.documents in
      let rest = cleanup_domains indexed domains in
      if not indexed then rest (remove_domain domain db) else elim (purged.1) [
        | none ↦ rest (remove_domain domain (record db { documents = purged.0 }))
        | some error ↦ (record db { documents = purged.0 }, some error)
      ]

  unfoldable pub cleanup_blacklisted_domains : (indexed : Bool) → Db → Outcome
  unfolding cleanup_domains
  cleanup_blacklisted_domains indexed db = cleanup_domains indexed db.blacklist db
