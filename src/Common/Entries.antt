-- ===== src/Common/Entries.antt =====
-- hkv-common/src/types.rs: entries with their flags and metadata. A clock reading is the number of
-- nanoseconds since the epoch, of which the low 64 bits are kept.
use Prim.Native.Nat.{bit_and, bit_or}
use hybird_kv.Prelude.{ℕ, ◌+◌, ◌-◌, ◌%◌, ◌^◌, ◌&&◌, not, Bool, ◌==◌}
use hybird_kv.Engine.Word.{word}
use hybird_kv.Common.Types.{Key, Value, ttl_is_expired}

-- `EntryFlags`, a byte, and its constants
abbrev pub valid_flag : ℕ
valid_flag = 1

abbrev pub evicting_flag : ℕ
evicting_flag = 2

abbrev pub invalidated_flag : ℕ
invalidated_flag = 4

abbrev pub empty_flags : ℕ
empty_flags = 0

abbrev pub valid_flags : ℕ
valid_flags = valid_flag

unfoldable pub flags_valid : ℕ → Bool
flags_valid flags = not (bit_and flags valid_flag == 0)

unfoldable pub is_evicting : ℕ → Bool
is_evicting flags = not (bit_and flags evicting_flag == 0)

unfoldable pub is_invalidated : ℕ → Bool
is_invalidated flags = not (bit_and flags invalidated_flag == 0)

-- `EntryFlags::set` and `EntryFlags::clear`, where `!flag` is the complement in a byte
unfoldable pub set_flag : ℕ → ℕ → ℕ
set_flag flags flag = bit_or flags flag

unfoldable pub clear_flag : ℕ → ℕ → ℕ
clear_flag flags flag = bit_and flags (255 - flag)

pub record EntryMetadata : Type 0 where
  pub version : ℕ
  pub ttl : ℕ
  pub created_at : ℕ
  pub accessed_at : ℕ
  pub flags : ℕ
  pub key_len : ℕ
  pub value_len : ℕ

-- `Ttl::from_duration`
unfoldable pub from_duration : ℕ → ℕ → ℕ
from_duration now duration = (now + duration) % word

unfoldable pub new_metadata : ℕ → ℕ → ℕ → ℕ → ℕ → EntryMetadata
new_metadata now version ttl key_len value_len = record {
  version = version;
  ttl = ttl;
  created_at = now % word;
  accessed_at = now % word;
  flags = valid_flags;
  key_len = key_len;
  value_len = value_len;
}

unfoldable pub touch_metadata : ℕ → EntryMetadata → EntryMetadata
touch_metadata now metadata = record metadata { accessed_at = now % word }

unfoldable pub metadata_expired : ℕ → EntryMetadata → Bool
metadata_expired now metadata = ttl_is_expired metadata.ttl (now % word)

unfoldable pub age_nanos : ℕ → EntryMetadata → ℕ
age_nanos now metadata = now % word - metadata.created_at

pub record Entry : Type 0 where
  pub key : Key
  pub value : Value
  pub metadata : EntryMetadata

unfoldable pub new_entry : ℕ → Key → Value → ℕ → ℕ → Entry
unfolding new_metadata
new_entry now key value version ttl = record {
  key = key;
  value = value;
  metadata = new_metadata now version ttl (key.len % 2 ^ 16) (value.len % 2 ^ 16);
}

unfoldable pub entry_valid : ℕ → Entry → Bool
unfolding flags_valid is_invalidated metadata_expired
entry_valid now entry =
    flags_valid entry.metadata.flags
    && not (metadata_expired now entry.metadata)
    && not (is_invalidated entry.metadata.flags)

unfoldable pub touch_entry : ℕ → Entry → Entry
touch_entry now entry = record entry { metadata = touch_metadata now entry.metadata }
