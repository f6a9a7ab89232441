-- ===== src/Common/Messages.antt =====
-- What the kernel module can rely on in the messages of hkv-common/src/protocol.rs.
use hybird_kv.Prelude.{
  ℕ, ◌/◌, ◌≤◌, ◌<◌, ◌≡◌, ◌↔◌, refl, subst, zero, suc, arith, true, some, ret, leb, get_elem?,
  replicate,
}
use hybird_kv.Common.Ioctl.{
  IoctlCommand, as_u8, from_u8, ioctl_magic, read, promote, batch_promote, demote, invalidate,
  stats, config, flush,
}
use hybird_kv.Common.Protocol.{
  new_header, protocol_version, max_batch_size, BatchPromoteResponse, new_batch_response,
  batch_result_bytes,
}

from_u8-as_u8 : (c : IoctlCommand) → from_u8 (as_u8 c) ≡ some c
unfolding from_u8 as_u8
from_u8-as_u8 read = refl
from_u8-as_u8 promote = refl
from_u8-as_u8 batch_promote = refl
from_u8-as_u8 demote = refl
from_u8-as_u8 invalidate = refl
from_u8-as_u8 stats = refl
from_u8-as_u8 config = refl
from_u8-as_u8 flush = refl

as_u8-from_u8 : (value : ℕ) (c : IoctlCommand) → from_u8 value ≡ some c → as_u8 c ≡ value
unfolding from_u8 as_u8
as_u8-from_u8 value read h = ground (arith, h)
as_u8-from_u8 value promote h = ground (arith, h)
as_u8-from_u8 value batch_promote h = ground (arith, h)
as_u8-from_u8 value demote h = ground (arith, h)
as_u8-from_u8 value invalidate h = ground (arith, h)
as_u8-from_u8 value stats h = ground (arith, h)
as_u8-from_u8 value config h = ground (arith, h)
as_u8-from_u8 value flush h = ground (arith, h)

-- `from_u8` reads a byte as a command exactly if it is the byte of that command, so that no two
-- commands share one.
pub from_u8_iff : (value : ℕ) (c : IoctlCommand) → (from_u8 value ≡ some c) ↔ (as_u8 c ≡ value)
from_u8_iff value c =
    (as_u8-from_u8 value c, λ h. subst (λ n. from_u8 n ≡ some c) h (from_u8-as_u8 c))

-- The bit of an entry in the bitmap of results stands in a byte that the response has, and is zero.
abbrev pub ZeroBits : BatchPromoteResponse → Type 0
ZeroBits r = (i : ℕ) → i < r.count → get_elem? r.results (i / 8) ≡ some 0

get_elem?-replicate : (n i : ℕ) → i < n → get_elem? {A = ℕ} (replicate n 0) i ≡ some 0
get_elem?-replicate zero i h = elim h [ ]
get_elem?-replicate (suc n) zero h = refl
get_elem?-replicate (suc n) (suc i) h = get_elem?-replicate n i (omega arith)

-- A response to a batch of at most 1000 entries is made without a panic. Its header has the magic
-- number, the version and a command that reads back as a batch promotion, and each of its entries
-- has its bit in a byte of the bitmap that the response carries, all of them zero.
pub new_batch_response-ZeroBits :
    (count : ℕ)
    → count ≤ max_batch_size
    → (r : BatchPromoteResponse) × (new_batch_response count ≡ ret r)
      × (r.count ≡ count)
      × (r.header.magic ≡ ioctl_magic)
      × (r.header.version ≡ protocol_version)
      × (from_u8 r.header.command ≡ some batch_promote)
      × ZeroBits r
unfolding new_batch_response new_header
new_batch_response-ZeroBits count h =
    let fits : leb count max_batch_size ≡ true = ground (arith, h) in
    (
      record {
        header = new_header batch_promote;
        count = count;
        reserved = 0;
        results = replicate batch_result_bytes 0;
      },
      rw (fits, new_batch_response) refl,
      refl,
      refl,
      refl,
      from_u8-as_u8 batch_promote,
      λ i l. get_elem?-replicate 125 (i / 8) (omega arith),
    )
