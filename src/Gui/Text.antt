-- ===== src/Gui/Text.antt =====
-- The operations of the standard library on `str` and on decimal numbers that the backend of
-- hkv-gui uses. A text is the list of its code points.
pub mod Lines
use hybird_kv.Prelude.{
  ℕ, ◌||◌, ◌&&◌, not, Bool, true, false, Option, none, some, List, [], ◌∷◌, ◌++◌, reverse, Bytes,
  leb, ◌==◌, if◌then◌else◌,
}

-- `char::is_whitespace`
unfoldable pub is_whitespace : ℕ → Bool
is_whitespace c =
    (leb 9 c && leb c 13)
    || c == 32
    || c == 0x85
    || c == 0xA0
    || c == 0x1680
    || (leb 0x2000 c && leb c 0x200A)
    || c == 0x2028
    || c == 0x2029
    || c == 0x202F
    || c == 0x205F
    || c == 0x3000

unfoldable pub trim_start : Bytes → Bytes
trim_start [] = []
trim_start (c ∷ cs) = let rest = trim_start cs in if is_whitespace c then rest else c ∷ cs

unfoldable pub trim : Bytes → Bytes
unfolding trim_start
trim s = reverse (trim_start (reverse (trim_start s)))

abbrev pub is_empty : Bytes → Bool
is_empty [] = true
is_empty (_ ∷ _) = false

unfoldable pub strip_prefix : Bytes → Bytes → Option Bytes
strip_prefix [] s = some s
strip_prefix (p ∷ ps) [] = none
strip_prefix (p ∷ ps) (c ∷ cs) = if p == c then strip_prefix ps cs else none

unfoldable pub contains : Bytes → Bytes → Bool
unfolding strip_prefix
contains needle [] = is_empty needle
contains needle (c ∷ cs) =
    let later = contains needle cs in
    elim (strip_prefix needle (c ∷ cs)) [ some _ ↦ true | none ↦ later ]

-- `split_once`, at one character
unfoldable pub split_once : ℕ → Bytes → Option (Bytes × Bytes)
split_once mark [] = none
split_once mark (c ∷ cs) =
    let later = split_once mark cs in
    if c == mark
    then some ([], cs)
    else elim later [ none ↦ none | some parts ↦ some (c ∷ parts.0, parts.1) ]

-- a character in front of the first line
abbrev pub onto_first : ℕ → List Bytes → List Bytes
onto_first c [] = (c ∷ []) ∷ []
onto_first c (l ∷ ls) = (c ∷ l) ∷ ls

abbrev pub ends_line : Bytes → Bool
ends_line [] = false
ends_line (c ∷ cs) = c == 10

-- `lines`: a line ends before `\n` or `\r\n`
unfoldable pub lines : Bytes → List Bytes
lines [] = []
lines (c ∷ cs) =
    let rest = lines cs in
    if c == 10 then [] ∷ rest else if c == 13 && ends_line cs then rest else onto_first c rest

-- `split`, at the characters that satisfy a test
unfoldable pub split : (ℕ → Bool) → Bytes → List Bytes
split mark [] = [] ∷ []
split mark (c ∷ cs) = let rest = split mark cs in if mark c then [] ∷ rest else onto_first c rest

unfoldable pub non_empty : List Bytes → List Bytes
non_empty [] = []
non_empty (s ∷ ss) = let rest = non_empty ss in if is_empty s then rest else s ∷ rest

unfoldable pub split_whitespace : Bytes → List Bytes
unfolding split non_empty
split_whitespace s = non_empty (split is_whitespace s)

unfoldable pub trim_matches_start : ℕ → Bytes → Bytes
trim_matches_start mark [] = []
trim_matches_start mark (c ∷ cs) =
    let rest = trim_matches_start mark cs in if c == mark then rest else c ∷ cs

-- `trim_matches`, of one character
unfoldable pub trim_matches : ℕ → Bytes → Bytes
unfolding trim_matches_start
trim_matches mark s = reverse (trim_matches_start mark (reverse (trim_matches_start mark s)))

-- `replace`, of the characters that satisfy a test by one character
unfoldable pub replace : (ℕ → Bool) → ℕ → Bytes → Bytes
replace mark by [] = []
replace mark by (c ∷ cs) = (if mark c then by else c) ∷ replace mark by cs
