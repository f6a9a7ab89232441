-- ===== src/Common/Tests.antt =====
-- Messages of the kernel module at concrete inputs.
use hybird_kv.Prelude.{ret, ◌≡◌, some, arith}
use hybird_kv.Common.Ioctl.{from_u8, batch_promote, ioctl_magic}
use hybird_kv.Common.Protocol.{BatchPromoteResponse, new_batch_response, protocol_version}
use hybird_kv.Common.Messages.{ZeroBits, new_batch_response-ZeroBits}

new_batch_response-ZeroBits_example :
    (r : BatchPromoteResponse) × (new_batch_response 1000 ≡ ret r)
    × (r.count ≡ 1000)
    × (r.header.magic ≡ ioctl_magic)
    × (r.header.version ≡ protocol_version)
    × (from_u8 r.header.command ≡ some batch_promote)
    × ZeroBits r
new_batch_response-ZeroBits_example = new_batch_response-ZeroBits 1000 (omega arith)
