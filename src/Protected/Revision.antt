-- ===== src/Protected/Revision.antt =====
-- protected.go, revision: the message that the revision of a record is the HMAC of.
pub mod Framing
use dalgo2ingitdb.Base.{
  ℕ, zero, suc, ◌*◌, ◌+◌, ◌<◌, String, Bool, true, false, List, [], ◌∷◌, ◌++◌, length,
  if◌then◌else◌,
}
use dalgo2ingitdb.Schema.{Bytes}
use dalgo2ingitdb.Protected.{Secrets}
use Prim.Native.Nat.{◌%◌, ◌/◌}

-- A number in so many bytes, the highest first: `binary.BigEndian.PutUint64` for eight of them.
unfoldable pub big_endian : ℕ → ℕ → Bytes
big_endian zero n = []
big_endian (suc k) n = big_endian k (n / 256) ++ n % 256 ∷ []

abbrev pub exists_byte : Bool → ℕ
exists_byte true = 1
exists_byte false = 0

unfoldable pub revision_message : Bytes → Bool → Bytes → Bytes
unfolding big_endian
revision_message target exists raw =
    big_endian 8 (length target) ++ (target ++ exists_byte exists ∷ raw)

unfoldable pub revision : Secrets → Bytes → String → Bool → Bytes → String
unfolding revision_message
revision secrets secret target exists raw =
    secrets.hmac_text secret (revision_message (secrets.text_bytes target) exists raw)
