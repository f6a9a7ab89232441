-- ===== src/Engine/Word.antt =====
-- Atomic counters of 64 bits, as hkv-engine/src/memory.rs uses them: `usize` and `u64` wrap.
use hybird_kv.Prelude.{ℕ, ◌+◌, ◌-◌, ◌%◌, ◌^◌, ◌≡◌, arith}

abbrev pub word : ℕ
word = 2 ^ 64

-- `fetch_add`
unfoldable pub add_word : ℕ → ℕ → ℕ
add_word a b = (a + b) % word

-- `fetch_sub`
unfoldable pub sub_word : ℕ → ℕ → ℕ
sub_word a b = (a + (word - b % word)) % word

-- A counter that stands for a sum follows it through additions and subtractions.
pub add_word-mod : (a n : ℕ) → add_word (a % word) n ≡ (a + n) % word
unfolding add_word
add_word-mod a n = omega arith

pub sub_word-mod : (a n : ℕ) → sub_word ((a + n) % word) n ≡ a % word
unfolding sub_word
sub_word-mod a n = omega arith
