-- ===== src/Gui/Text/Lines.antt =====
-- Texts without white space, and how the operations on text take them apart.
use mathlib.Core.List.{reverse-cons, reverse-reverse}
use hybird_kv.Prelude.{
  ℕ, ◌≡◌, refl, sym, ap, subst, false, some, [], ◌∷◌, ◌++◌, reverse, Bytes, arith, ◌≤◌, ◌==◌,
}
use hybird_kv.Gui.Text.{is_whitespace, trim_start, trim, split_once, onto_first, lines}
use hybird_kv.Common.Numbers.{Digits}

abbrev pub NoSpace : Bytes → Type 0
NoSpace [] = Unit
NoSpace (c ∷ cs) = (is_whitespace c ≡ false) × NoSpace cs

pub NoSpace-append : (xs ys : Bytes) → NoSpace xs → NoSpace ys → NoSpace (xs ++ ys)
NoSpace-append [] ys h k = k
NoSpace-append (x ∷ xs) ys h k = (h.0, NoSpace-append xs ys h.1 k)

digit-visible : (c : ℕ) → 48 ≤ c → c ≤ 57 → is_whitespace c ≡ false
unfolding is_whitespace
digit-visible c h k = ground arith

pub Digits-NoSpace : (ds : Bytes) → Digits ds → NoSpace ds
Digits-NoSpace [] d = tt
Digits-NoSpace (c ∷ cs) d = (digit-visible c d.0 d.1, Digits-NoSpace cs d.2)

NoSpace-reverse : (xs : Bytes) → NoSpace xs → NoSpace (reverse xs)
NoSpace-reverse [] h = tt
NoSpace-reverse (x ∷ xs) h =
    subst NoSpace (sym (reverse-cons x xs))
      (NoSpace-append (reverse xs) (x ∷ []) (NoSpace-reverse xs h.1) (h.0, tt))

trim_start-NoSpace : (s : Bytes) → NoSpace s → trim_start s ≡ s
unfolding trim_start
trim_start-NoSpace [] h = refl
trim_start-NoSpace (c ∷ cs) h = rw h.0

pub trim-NoSpace : (s : Bytes) → NoSpace s → trim s ≡ s
unfolding trim
trim-NoSpace s h =
    rw (trim_start-NoSpace s h)
      (rw (trim_start-NoSpace (reverse s) (NoSpace-reverse s h)) (reverse-reverse s))

breaks_line : (c : ℕ) → is_whitespace c ≡ false → (c == 10 ≡ false) × (c == 13 ≡ false)
unfolding is_whitespace
breaks_line c h = ground arith

-- The first line of a text, which `\r\n` ends.
pub lines-append : (l rest : Bytes) → NoSpace l → lines (l ++ 13 ∷ 10 ∷ rest) ≡ l ∷ lines rest
unfolding lines
lines-append [] rest h = refl
lines-append (c ∷ cs) rest h =
    let (a, b) = breaks_line c h.0 in rw (a, b) (ap (onto_first c) (lines-append cs rest h.1))

abbrev pub Without : ℕ → Bytes → Type 0
Without mark [] = Unit
Without mark (c ∷ cs) = (c == mark ≡ false) × Without mark cs

pub split_once-append :
    (mark : ℕ) (s rest : Bytes)
    → Without mark s
    → split_once mark (s ++ mark ∷ rest) ≡ some (s, rest)
unfolding split_once
split_once-append mark [] rest h = ground arith
split_once-append mark (c ∷ cs) rest h = rw h.0 (rw (split_once-append mark cs rest h.1))
