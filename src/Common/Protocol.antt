-- ===== src/Common/Protocol.antt =====
-- hkv-common/src/protocol.rs: the messages to the kernel module and back. `debug_assert!` panics,
-- as in a debug build.
use hybird_kv.Prelude.{ℕ, ◌+◌, ◌/◌, List, Outcome, ret, panic, leb, replicate, if◌then◌else◌}
use hybird_kv.Common.Types.{Key, Value}
use hybird_kv.Common.Ioctl.{
  IoctlCommand, ioctl_magic, as_u8, read, promote, batch_promote, demote, invalidate, stats, config,
  flush,
}

abbrev pub protocol_version : ℕ
protocol_version = 1

abbrev pub status_ok : ℕ
status_ok = 0

abbrev pub max_batch_size : ℕ
max_batch_size = 1000

-- `MAX_BATCH_SIZE.div_ceil(8)`
abbrev pub batch_result_bytes : ℕ
batch_result_bytes = (max_batch_size + 7) / 8

pub record IoctlHeader : Type 0 where
  pub magic : ℕ
  pub version : ℕ
  pub command : ℕ
  pub reserved : ℕ

unfoldable pub new_header : IoctlCommand → IoctlHeader
new_header command = record {
  magic = ioctl_magic;
  version = protocol_version;
  command = as_u8 command;
  reserved = 0;
}

pub record ReadRequest : Type 0 where
  pub header : IoctlHeader
  pub key : Key

unfoldable pub new_read_request : Key → ReadRequest
new_read_request key = record { header = new_header read; key = key }

pub record ReadResponse : Type 0 where
  pub header : IoctlHeader
  pub status : ℕ
  pub value : Value

unfoldable pub new_read_response : ℕ → Value → ReadResponse
new_read_response status value = record { header = new_header read; status = status; value = value }

pub record PromoteRequest : Type 0 where
  pub header : IoctlHeader
  pub key : Key
  pub value : Value
  pub version : ℕ
  pub ttl : ℕ

unfoldable pub new_promote_request : Key → Value → ℕ → ℕ → PromoteRequest
new_promote_request key value version ttl = record {
  header = new_header promote;
  key = key;
  value = value;
  version = version;
  ttl = ttl;
}

pub record PromoteResponse : Type 0 where
  pub header : IoctlHeader
  pub status : ℕ
  pub reserved : ℕ

unfoldable pub new_promote_response : ℕ → PromoteResponse
new_promote_response status = record { header = new_header promote; status = status; reserved = 0 }

pub record BatchPromoteEntry : Type 0 where
  pub key : Key
  pub value : Value
  pub version : ℕ
  pub ttl : ℕ

unfoldable pub new_batch_entry : Key → Value → ℕ → ℕ → BatchPromoteEntry
new_batch_entry key value version ttl = record {
  key = key;
  value = value;
  version = version;
  ttl = ttl;
}

pub record BatchPromoteRequest : Type 0 where
  pub header : IoctlHeader
  pub count : ℕ
  pub reserved : ℕ
  pub entries : List BatchPromoteEntry

-- of an array of `MAX_BATCH_SIZE` entries
unfoldable pub new_batch_request : List BatchPromoteEntry → ℕ → Outcome BatchPromoteRequest
new_batch_request entries count =
    if leb count max_batch_size
    then ret (record {
      header = new_header batch_promote;
      count = count;
      reserved = 0;
      entries = entries;
    })
    else panic

pub record BatchPromoteResponse : Type 0 where
  pub header : IoctlHeader
  pub count : ℕ
  pub reserved : ℕ
  pub results : List ℕ

unfoldable pub new_batch_response : ℕ → Outcome BatchPromoteResponse
new_batch_response count =
    if leb count max_batch_size
    then ret (record {
      header = new_header batch_promote;
      count = count;
      reserved = 0;
      results = replicate batch_result_bytes 0;
    })
    else panic

pub record DemoteRequest : Type 0 where
  pub header : IoctlHeader
  pub key : Key

unfoldable pub new_demote_request : Key → DemoteRequest
new_demote_request key = record { header = new_header demote; key = key }

pub record InvalidateRequest : Type 0 where
  pub header : IoctlHeader
  pub key : Key
  pub version : ℕ

unfoldable pub new_invalidate_request : Key → ℕ → InvalidateRequest
new_invalidate_request key version = record {
  header = new_header invalidate;
  key = key;
  version = version;
}

pub record CacheStats : Type 0 where
  pub lookups : ℕ
  pub hits : ℕ
  pub misses : ℕ
  pub stale_hits : ℕ
  pub promotions : ℕ
  pub demotions : ℕ
  pub evictions : ℕ
  pub invalidations : ℕ
  pub used_bytes : ℕ
  pub max_bytes : ℕ
  pub entry_count : ℕ
  pub lock_contentions : ℕ
  pub rcu_grace_periods : ℕ

pub record StatsRequest : Type 0 where
  pub header : IoctlHeader

unfoldable pub new_stats_request : StatsRequest
new_stats_request = record { header = new_header stats }

pub record StatsResponse : Type 0 where
  pub header : IoctlHeader
  pub status : ℕ
  pub reserved : ℕ
  pub stats : CacheStats

unfoldable pub new_stats_response : ℕ → CacheStats → StatsResponse
new_stats_response status counters = record {
  header = new_header stats;
  status = status;
  reserved = 0;
  stats = counters;
}

pub record ConfigRequest : Type 0 where
  pub header : IoctlHeader
  pub max_bytes : ℕ
  pub max_entries : ℕ
  pub high_watermark : ℕ
  pub low_watermark : ℕ
  pub reserved : ℕ

unfoldable pub new_config_request : ℕ → ℕ → ℕ → ℕ → ConfigRequest
new_config_request max_bytes max_entries high_watermark low_watermark = record {
  header = new_header config;
  max_bytes = max_bytes;
  max_entries = max_entries;
  high_watermark = high_watermark;
  low_watermark = low_watermark;
  reserved = 0;
}

pub record FlushRequest : Type 0 where
  pub header : IoctlHeader

unfoldable pub new_flush_request : FlushRequest
new_flush_request = record { header = new_header flush }
