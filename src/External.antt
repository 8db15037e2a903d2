-- ===== src/External.antt =====
-- What the program takes from outside the repository: the `url` crate, with which
-- crates/findverse-common parses every address, the Unicode tables behind `str::to_lowercase` and
-- `char::is_alphanumeric`, and the SHA-256 digest of the `sha2` crate.
use find_verse.Prelude.{ℕ, List, String, Option, Bool}

pub record Platform : Type 1 where
  -- `url::Url` and the methods that the source calls; a setter returns the changed address.
  pub Url : Type 0
  pub parse : String → Option Url
  pub scheme : Url → String
  pub host_str : Url → Option String
  pub port : Url → Option ℕ
  pub path : Url → String
  pub query_pairs : Url → List (String × String)
  pub clear_port : Url → Url
  pub clear_fragment : Url → Url
  pub set_query : Option String → Url → Url
  pub set_path : String → Url → Url
  pub to_string : Url → String
  pub join_url : Url → String → Option Url
  pub to_lowercase : String → String
  pub is_alphanumeric : ℕ → Bool
  -- The bytes of the SHA-256 digest of a text.
  pub sha256 : String → List ℕ
