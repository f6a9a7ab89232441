-- ===== src/Common/Ioctl.antt =====
-- hkv-common/src/ioctl.rs: the commands of the kernel module.
use hybird_kv.Prelude.{ℕ, Bool, true, false, Option, none, some, Bytes, bytes, ◌==◌, if◌then◌else◌}

abbrev pub ioctl_magic : ℕ
ioctl_magic = 72

abbrev pub cmd_read : ℕ
cmd_read = 0

abbrev pub cmd_promote : ℕ
cmd_promote = 1

abbrev pub cmd_batch_promote : ℕ
cmd_batch_promote = 2

abbrev pub cmd_demote : ℕ
cmd_demote = 3

abbrev pub cmd_invalidate : ℕ
cmd_invalidate = 4

abbrev pub cmd_stats : ℕ
cmd_stats = 5

abbrev pub cmd_config : ℕ
cmd_config = 6

abbrev pub cmd_flush : ℕ
cmd_flush = 7

pub data IoctlCommand : Type 0 where
  read promote batch_promote demote : IoctlCommand
  invalidate stats config flush : IoctlCommand

unfoldable pub as_u8 : IoctlCommand → ℕ
as_u8 read = cmd_read
as_u8 promote = cmd_promote
as_u8 batch_promote = cmd_batch_promote
as_u8 demote = cmd_demote
as_u8 invalidate = cmd_invalidate
as_u8 stats = cmd_stats
as_u8 config = cmd_config
as_u8 flush = cmd_flush

unfoldable pub from_u8 : ℕ → Option IoctlCommand
from_u8 value =
    if value == cmd_read
    then some read
    else if value == cmd_promote
    then some promote
    else if value == cmd_batch_promote
    then some batch_promote
    else if value == cmd_demote
    then some demote
    else if value == cmd_invalidate
    then some invalidate
    else if value == cmd_stats
    then some stats
    else if value == cmd_config
    then some config
    else if value == cmd_flush
    then some flush
    else none

unfoldable pub name : IoctlCommand → Bytes
name read = bytes "READ"
name promote = bytes "PROMOTE"
name batch_promote = bytes "BATCH_PROMOTE"
name demote = bytes "DEMOTE"
name invalidate = bytes "INVALIDATE"
name stats = bytes "STATS"
name config = bytes "CONFIG"
name flush = bytes "FLUSH"

unfoldable pub is_readonly : IoctlCommand → Bool
is_readonly read = true
is_readonly stats = true
is_readonly _ = false

unfoldable pub is_write : IoctlCommand → Bool
is_write promote = true
is_write batch_promote = true
is_write demote = true
is_write invalidate = true
is_write flush = true
is_write _ = false

unfoldable pub is_config : IoctlCommand → Bool
is_config config = true
is_config _ = false
