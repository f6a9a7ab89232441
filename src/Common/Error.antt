-- ===== src/Common/Error.antt =====
-- hkv-common/src/error.rs: `HkvError`, its codes and its categories.
use hybird_kv.Prelude.{ℕ, ◌==◌, Bool, true, false, Option, none, some, if◌then◌else◌}

pub data HkvErrorCategory : Type 0 where
  client server transient protocol : HkvErrorCategory

pub data HkvError : Type 0 where
  invalid_input not_found key_too_long value_too_long : HkvError
  out_of_memory capacity_exceeded internal_error : HkvError
  busy timeout interrupted : HkvError
  version_mismatch protocol_violation unsupported_command : HkvError

-- `HkvErrorCategory::is_retryable`
unfoldable pub is_retryable_category : HkvErrorCategory → Bool
is_retryable_category transient = true
is_retryable_category _ = false

unfoldable pub code : HkvError → ℕ
code invalid_input = 1
code not_found = 2
code key_too_long = 3
code value_too_long = 4
code out_of_memory = 10
code capacity_exceeded = 11
code internal_error = 12
code busy = 20
code timeout = 21
code interrupted = 22
code version_mismatch = 30
code protocol_violation = 31
code unsupported_command = 32

unfoldable pub category : HkvError → HkvErrorCategory
category invalid_input = client
category not_found = client
category key_too_long = client
category value_too_long = client
category out_of_memory = server
category capacity_exceeded = server
category internal_error = server
category busy = transient
category timeout = transient
category interrupted = transient
category version_mismatch = protocol
category protocol_violation = protocol
category unsupported_command = protocol

unfoldable pub is_retryable : HkvError → Bool
is_retryable e = is_retryable_category (category e)

unfoldable pub from_code : ℕ → Option HkvError
from_code c =
    if c == 1
    then some invalid_input
    else if c == 2
    then some not_found
    else if c == 3
    then some key_too_long
    else if c == 4
    then some value_too_long
    else if c == 10
    then some out_of_memory
    else if c == 11
    then some capacity_exceeded
    else if c == 12
    then some internal_error
    else if c == 20
    then some busy
    else if c == 21
    then some timeout
    else if c == 22
    then some interrupted
    else if c == 30
    then some version_mismatch
    else if c == 31
    then some protocol_violation
    else if c == 32
    then some unsupported_command
    else none
