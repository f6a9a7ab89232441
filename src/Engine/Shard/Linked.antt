-- ===== src/Engine/Shard/Linked.antt =====
-- The links of a shard and its list of items, and the relinking steps as changes of the arena.
use hybird_kv.Prelude.{
  ℕ, ◌<◌, ◌≡◌, ◌≢◌, refl, sym, Option, none, some, List, [], ◌∷◌, ◌++◌, ret, modify_at-ret, slot,
  slot-lt, modify, length, length-modify,
}
use hybird_kv.Engine.Node.{Node}
use hybird_kv.Engine.Shard.{ShardInner, link_next, link_prev}
use hybird_kv.Engine.Shard.Links.{
  Payload, Items, first_of, last_idx, last_of, Absent, Distinct, Seg, relink_next, relink_prev,
  Seg-frame, slot-modify_ne, Absent-last_idx,
}
use hybird_kv.Engine.Shard.Distinct.{Absent-before, Absent-last}

-- The links of the shard agree with the list of items.
pub record IsLinked {Map : Type 0} (s : ShardInner Map) (xs : Items) : Type 0 where
  pub at_head : s.head ≡ first_of xs none
  pub at_tail : s.tail ≡ last_of none xs
  pub seg : Seg s.nodes none xs none
  pub distinct : Distinct xs

abbrev pub InBounds : Option ℕ → ℕ → Type 0
InBounds none n = Unit
InBounds (some i) n = i < n

abbrev pub set_head : Option ℕ → Option ℕ → Option ℕ → Option ℕ
set_head none q h = q
set_head (some _) q h = h

pub Seg-last_lt :
    (nodes : List (Option Node)) (i : ℕ) (e : Payload) (xs : Items) (p q : Option ℕ)
    → Seg nodes p ((i, e) ∷ xs) q
    → last_idx i xs < length nodes
Seg-last_lt nodes i e [] p q h = slot-lt nodes i h.0
Seg-last_lt nodes i e ((j, f) ∷ xs) p q h = Seg-last_lt nodes j f xs (some i) q h.1

pub last-InBounds :
    (nodes : List (Option Node)) (xs : Items) (q : Option ℕ)
    → Seg nodes none xs q
    → InBounds (last_of none xs) (length nodes)
last-InBounds nodes [] q h = tt
last-InBounds nodes ((i, e) ∷ xs) q h = Seg-last_lt nodes i e xs none q h

pub first-InBounds :
    (nodes : List (Option Node)) (p : Option ℕ) (xs : Items)
    → Seg nodes p xs none
    → InBounds (first_of xs none) (length nodes)
first-InBounds nodes p [] h = tt
first-InBounds nodes p ((i, e) ∷ xs) h = slot-lt nodes i h.0

pub length-relink_next :
    (p q : Option ℕ) (nodes : List (Option Node)) → length (relink_next p q nodes) ≡ length nodes
length-relink_next none q nodes = refl
length-relink_next (some i) q nodes = length-modify nodes i _

pub length-relink_prev :
    (p q : Option ℕ) (nodes : List (Option Node)) → length (relink_prev p q nodes) ≡ length nodes
length-relink_prev none q nodes = refl
length-relink_prev (some i) q nodes = length-modify nodes i _

-- The slot that a relinking changes, if any, is not among the items.
abbrev pub Missing : Option ℕ → Items → Type 0
Missing none xs = Unit
Missing (some i) xs = Absent i xs

abbrev pub Elsewhere : Option ℕ → ℕ → Type 0
Elsewhere none j = Unit
Elsewhere (some i) j = i ≢ j

pub relink_next-frame :
    (nodes : List (Option Node)) (o q' p : Option ℕ) (xs : Items) (q : Option ℕ)
    → Missing o xs
    → Seg nodes p xs q
    → Seg (relink_next o q' nodes) p xs q
relink_next-frame nodes none q' p xs q a h = h
relink_next-frame nodes (some i) q' p xs q a h =
    Seg-frame nodes (modify nodes i _) i (λ j n. slot-modify_ne nodes i _ j n) p xs q a h

pub relink_prev-frame :
    (nodes : List (Option Node)) (o q' p : Option ℕ) (xs : Items) (q : Option ℕ)
    → Missing o xs
    → Seg nodes p xs q
    → Seg (relink_prev o q' nodes) p xs q
relink_prev-frame nodes none q' p xs q a h = h
relink_prev-frame nodes (some i) q' p xs q a h =
    Seg-frame nodes (modify nodes i _) i (λ j n. slot-modify_ne nodes i _ j n) p xs q a h

pub slot-relink_next :
    (nodes : List (Option Node)) (o q : Option ℕ) (j : ℕ)
    → Elsewhere o j
    → slot (relink_next o q nodes) j ≡ slot nodes j
slot-relink_next nodes none q j h = refl
slot-relink_next nodes (some i) q j h = slot-modify_ne nodes i _ j h

pub slot-relink_prev :
    (nodes : List (Option Node)) (o q : Option ℕ) (j : ℕ)
    → Elsewhere o j
    → slot (relink_prev o q nodes) j ≡ slot nodes j
slot-relink_prev nodes none q j h = refl
slot-relink_prev nodes (some i) q j h = slot-modify_ne nodes i _ j h

pub last-Missing : (xs ys : Items) → Distinct (xs ++ ys) → Missing (last_of none xs) ys
last-Missing [] ys d = tt
last-Missing ((i, e) ∷ xs) ys d = Absent-last i e xs ys d

pub first-Missing : (xs ys : Items) → Distinct (xs ++ ys) → Missing (first_of ys none) xs
first-Missing xs [] d = tt
first-Missing xs ((j, f) ∷ ys) d = Absent-before xs j f ys d

pub last-Elsewhere : (j : ℕ) (xs : Items) → Absent j xs → Elsewhere (last_of none xs) j
last-Elsewhere j [] a = tt
last-Elsewhere j ((i, e) ∷ xs) a = λ eq. Absent-last_idx j i e xs a (sym eq)

pub first-Elsewhere : (j : ℕ) (xs : Items) → Absent j xs → Elsewhere (first_of xs none) j
first-Elsewhere j [] a = tt
first-Elsewhere j ((i, e) ∷ xs) a = λ eq. a.0 (sym eq)

module _ {Map : Type 0} where
  pub link_next-ret :
      (s : ShardInner Map) (p q : Option ℕ)
      → InBounds p (length s.nodes)
      → link_next s p q
        ≡ ret (record s { head = set_head p q s.head; nodes = relink_next p q s.nodes })
  unfolding link_next
  link_next-ret s none q b = refl
  link_next-ret s (some i) q b = rw (modify_at-ret s.nodes i (λ n. record n { next = q }) b)

  pub link_prev-ret :
      (s : ShardInner Map) (q p : Option ℕ)
      → InBounds q (length s.nodes)
      → link_prev s q p
        ≡ ret (record s { tail = set_head q p s.tail; nodes = relink_prev q p s.nodes })
  unfolding link_prev
  link_prev-ret s none q b = refl
  link_prev-ret s (some i) q b = rw (modify_at-ret s.nodes i (λ n. record n { prev = q }) b)
