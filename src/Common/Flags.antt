-- ===== src/Common/Flags.antt =====
-- The flags of an entry of hkv-common/src/types.rs, and what they do to an entry.
use hybird_kv.Prelude.{
  ℕ, zero, suc, ◌<◌, ◌≡◌, ◌≢◌, refl, sym, ◌∙◌, ap, arith, Bool, true, false, ◌&&◌, not,
  if◌then◌else◌,
}
use hybird_kv.Common.Entries.{
  valid_flag, evicting_flag, invalidated_flag, flags_valid, is_evicting, is_invalidated, set_flag,
  clear_flag,
}

-- One of the three flags.
pub data Flag : Type 0 where
  valid evicting invalidated : Flag

abbrev pub bit : Flag → ℕ
bit valid = valid_flag
bit evicting = evicting_flag
bit invalidated = invalidated_flag

abbrev pub test : Flag → ℕ → Bool
test valid flags = flags_valid flags
test evicting flags = is_evicting flags
test invalidated flags = is_invalidated flags

same_flag : Flag → Flag → Bool
same_flag valid valid = true
same_flag evicting evicting = true
same_flag invalidated invalidated = true
same_flag _ _ = false

same_bool : Bool → Bool → Bool
same_bool true x = x
same_bool false x = not x

same_bool-eq : (x y : Bool) → same_bool x y ≡ true → x ≡ y
unfolding same_bool
same_bool-eq true y h = sym h
same_bool-eq false true h = cc
same_bool-eq false false h = refl

all_below : ℕ → (ℕ → Bool) → Bool
all_below zero p = true
all_below (suc n) p = p n && all_below n p

all_below-at : (n : ℕ) (p : ℕ → Bool) (x : ℕ) → all_below n p ≡ true → x < n → p x ≡ true
unfolding all_below
all_below-at zero p x h l = elim l [ ]
all_below-at (suc n) p x h l = ground (arith, all_below-at n p x)

set_ok : Flag → Flag → ℕ → Bool
set_ok f g flags =
    same_bool (test g (set_flag flags (bit f))) (if same_flag f g then true else test g flags)

clear_ok : Flag → Flag → ℕ → Bool
clear_ok f g flags =
    same_bool (test g (clear_flag flags (bit f))) (if same_flag f g then false else test g flags)

table : (f g : Flag) → all_below 256 (λ flags. set_ok f g flags && clear_ok f g flags) ≡ true
unfolding all_below set_ok clear_ok same_bool same_flag set_flag clear_flag flags_valid is_evicting
    is_invalidated
table valid valid = refl
table valid evicting = refl
table valid invalidated = refl
table evicting valid = refl
table evicting evicting = refl
table evicting invalidated = refl
table invalidated valid = refl
table invalidated evicting = refl
table invalidated invalidated = refl

differ : (f g : Flag) → f ≢ g → same_flag f g ≡ false
unfolding same_flag
differ valid valid n = absurd (n refl)
differ valid evicting n = refl
differ valid invalidated n = refl
differ evicting valid n = refl
differ evicting evicting n = absurd (n refl)
differ evicting invalidated n = refl
differ invalidated valid n = refl
differ invalidated evicting n = refl
differ invalidated invalidated n = absurd (n refl)

same : (f : Flag) → same_flag f f ≡ true
unfolding same_flag
same valid = refl
same evicting = refl
same invalidated = refl

at : (f g : Flag) (flags : ℕ) → flags < 256 → (set_ok f g flags && clear_ok f g flags) ≡ true
at f g flags h =
    all_below-at 256 (λ flags. set_ok f g flags && clear_ok f g flags) flags (table f g) h

both : (x y : Bool) → (x && y) ≡ true → (x ≡ true) × (y ≡ true)
both true y h = (refl, h)
both false y h = cc

set_at :
    (f g : Flag) (flags : ℕ)
    → flags < 256
    → test g (set_flag flags (bit f)) ≡ (if same_flag f g then true else test g flags)
unfolding set_ok
set_at f g flags h = same_bool-eq _ _ (both _ _ (at f g flags h)).0

clear_at :
    (f g : Flag) (flags : ℕ)
    → flags < 256
    → test g (clear_flag flags (bit f)) ≡ (if same_flag f g then false else test g flags)
unfolding clear_ok
clear_at f g flags h = same_bool-eq _ _ (both _ _ (at f g flags h)).1

-- On every byte of flags, and for each of the three flags: setting it makes its test true, clearing
-- it makes its test false, and neither changes the test of another flag.
pub set_flag-test :
    (f : Flag) (flags : ℕ)
    → flags < 256
    → (test f (set_flag flags (bit f)) ≡ true)
      × (test f (clear_flag flags (bit f)) ≡ false)
      × ((g : Flag)
          → f ≢ g
          → (test g (set_flag flags (bit f)) ≡ test g flags)
            × (test g (clear_flag flags (bit f)) ≡ test g flags))
set_flag-test f flags h = (
  set_at f f flags h ∙ ap (λ b. if b then true else test f flags) (same f),
  clear_at f f flags h ∙ ap (λ b. if b then false else test f flags) (same f),
  λ g n. (
    set_at f g flags h ∙ ap (λ b. if b then true else test g flags) (differ f g n),
    clear_at f g flags h ∙ ap (λ b. if b then false else test g flags) (differ f g n),
  ),
)
