-- ===== src/Common/Codes.antt =====
-- The codes of errors: their round trip, and the ranges that they are grouped in.
use hybird_kv.Prelude.{
  ℕ, ◌≤◌, ◌<◌, ◌≡◌, ◌↔◌, refl, subst, arith, true, Option, some, ◌==◌, ==_iff, ltb, if◌then◌else◌,
}
use hybird_kv.Common.Error.{
  HkvError, HkvErrorCategory, client, server, transient, protocol, code, category, from_code,
  is_retryable, is_retryable_category, invalid_input, not_found, key_too_long, value_too_long,
  out_of_memory, capacity_exceeded, internal_error, busy, timeout, interrupted, version_mismatch,
  protocol_violation, unsupported_command,
}

code-from_code : (e : HkvError) → from_code (code e) ≡ some e
unfolding code from_code
code-from_code invalid_input = refl
code-from_code not_found = refl
code-from_code key_too_long = refl
code-from_code value_too_long = refl
code-from_code out_of_memory = refl
code-from_code capacity_exceeded = refl
code-from_code internal_error = refl
code-from_code busy = refl
code-from_code timeout = refl
code-from_code interrupted = refl
code-from_code version_mismatch = refl
code-from_code protocol_violation = refl
code-from_code unsupported_command = refl

-- One row of the table: the code of the row's error is the row's, and so for the rows below it.
row :
    (c n : ℕ) (f e : HkvError) (rest : Option HkvError)
    → code f ≡ n
    → (rest ≡ some e → code e ≡ c)
    → (if c == n then some f else rest) ≡ some e
    → code e ≡ c
row c n f e rest h below found = ground (arith, ==_iff c n)

from_code-code : (c : ℕ) (e : HkvError) → from_code c ≡ some e → code e ≡ c
unfolding code from_code
from_code-code c e =
    (row c 1 invalid_input e _ refl (
      row c 2 not_found e _ refl (
        row c 3 key_too_long e _ refl (
          row c 4 value_too_long e _ refl (
            row c 10 out_of_memory e _ refl (
              row c 11 capacity_exceeded e _ refl (
                row c 12 internal_error e _ refl (
                  row c 20 busy e _ refl (
                    row c 21 timeout e _ refl (
                      row c 22 interrupted e _ refl (
                        row c 30 version_mismatch e _ refl (
                          row c 31 protocol_violation e _ refl
                            (row c 32 unsupported_command e _ refl (λ h. cc))))))))))))))

-- `from_code` is the inverse of `code`: it gives an error exactly at the error's code, and none at
-- a number that is no error's code.
pub from_code_iff : (c : ℕ) (e : HkvError) → (from_code c ≡ some e) ↔ (code e ≡ c)
from_code_iff c e =
    (from_code-code c e, λ h. subst (λ k. from_code k ≡ some e) h (code-from_code e))

-- The group of a code by its range: below 10, 20, 30, and the rest.
abbrev pub range_of : ℕ → HkvErrorCategory
range_of c =
    if ltb c 10
    then client
    else if ltb c 20
    then server
    else if ltb c 30
    then transient
    else protocol

-- Codes are grouped by category: below 10 those of clients, from 10 the server's, from 20 the
-- transient ones, from 30 those of the protocol. An error is retryable exactly if its code is from
-- 20 to 29.
pub category-range_of :
    (e : HkvError)
    → (category e ≡ range_of (code e)) × ((is_retryable e ≡ true) ↔ ((20 ≤ code e) × (code e < 30)))
unfolding code category is_retryable is_retryable_category
category-range_of invalid_input = (refl, ground arith)
category-range_of not_found = (refl, ground arith)
category-range_of key_too_long = (refl, ground arith)
category-range_of value_too_long = (refl, ground arith)
category-range_of out_of_memory = (refl, ground arith)
category-range_of capacity_exceeded = (refl, ground arith)
category-range_of internal_error = (refl, ground arith)
category-range_of busy = (refl, ground arith)
category-range_of timeout = (refl, ground arith)
category-range_of interrupted = (refl, ground arith)
category-range_of version_mismatch = (refl, ground arith)
category-range_of protocol_violation = (refl, ground arith)
category-range_of unsupported_command = (refl, ground arith)
