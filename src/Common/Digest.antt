-- ===== src/Common/Digest.antt =====
-- crates/findverse-common/src/lib.rs: document ids and content hashes, in hexadecimal.
use Prim.Native.String
use find_verse.External.{Platform}
use find_verse.Prelude.{ℕ, ◌/◌, ◌%◌, List, [], ◌∷◌, String}

-- `{byte:02x}`
unfoldable pub hex_byte : ℕ → String
hex_byte byte =
    String.◌∷◌ (String.char_at "0123456789abcdef" (byte / 16 % 16))
      (String.◌∷◌ (String.char_at "0123456789abcdef" (byte % 16)) String.[])

unfoldable pub hex : List ℕ → String
unfolding hex_byte
hex [] = ""
hex (byte ∷ bytes) = String.◌++◌ (hex_byte byte) (hex bytes)

module _ (platform : Platform) where
  open platform use {sha256}

  unfoldable pub stable_document_id : String → String
  unfolding hex
  stable_document_id value = hex (sha256 value)

  unfoldable pub content_hash : String → String
  unfolding hex
  content_hash input = hex (sha256 input)
