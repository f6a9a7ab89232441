-- ===== src/Engine/Shard/Links.antt =====
-- Doubly linked segments inside the node arena of a shard, and what relinking does to them.
-- A segment is a list of slot indices, each with the payload of its node.
use hybird_kv.Prelude.{
  ℕ, ◌≡◌, ◌≢◌, refl, sym, ◌∙◌, Option, none, some, List, [], ◌∷◌, ◌++◌, arith, Bytes, slot, modify,
  slot-modify,
}
use hybird_kv.Engine.Node.{Node}

-- A node without its links.
pub record Payload : Type 0 where
  pub key : Bytes
  pub value : Bytes
  pub expires_at : Option ℕ
  pub ttl_token : ℕ
  pub size : ℕ

abbrev pub with_links : Payload → Option ℕ → Option ℕ → Node
with_links e p q = record {
  key = e.key;
  value = e.value;
  expires_at = e.expires_at;
  ttl_token = e.ttl_token;
  size = e.size;
  prev = p;
  next = q;
}

abbrev pub Items : Type 0
Items = List (ℕ × Payload)

-- The index of the first item, or `q` if there is none.
abbrev pub first_of : Items → Option ℕ → Option ℕ
first_of [] q = q
first_of ((i, _) ∷ xs) q = some i

abbrev pub last_idx : ℕ → Items → ℕ
last_idx i [] = i
last_idx i ((j, _) ∷ xs) = last_idx j xs

-- The index of the last item, or `p` if there is none.
abbrev pub last_of : Option ℕ → Items → Option ℕ
last_of p [] = p
last_of p ((i, _) ∷ xs) = some (last_idx i xs)

abbrev pub Absent : ℕ → Items → Type 0
Absent i [] = Unit
Absent i ((j, _) ∷ xs) = (i ≢ j) × Absent i xs

abbrev pub Distinct : Items → Type 0
Distinct [] = Unit
Distinct ((i, _) ∷ xs) = Absent i xs × Distinct xs

-- The items stand in the arena, linked in order, with `p` before them and `q` behind them.
abbrev pub Seg : List (Option Node) → Option ℕ → Items → Option ℕ → Type 0
Seg nodes p [] q = Unit
Seg nodes p ((i, e) ∷ xs) q =
    (slot nodes i ≡ some (with_links e p (first_of xs q))) × Seg nodes (some i) xs q

pub first_of-append :
    (xs ys : Items) (q : Option ℕ) → first_of (xs ++ ys) q ≡ first_of xs (first_of ys q)
first_of-append [] ys q = refl
first_of-append (x ∷ xs) ys q = refl

pub last_of-append :
    (p : Option ℕ) (xs ys : Items) → last_of p (xs ++ ys) ≡ last_of (last_of p xs) ys
last_of-append p [] ys = refl
last_of-append p (x ∷ []) [] = refl
last_of-append p (x ∷ []) (y ∷ ys) = refl
last_of-append p ((i, e) ∷ (j, f) ∷ xs) ys = last_of-append (some i) ((j, f) ∷ xs) ys

pub Seg-split :
    (nodes : List (Option Node)) (p : Option ℕ) (xs ys : Items) (q : Option ℕ)
    → Seg nodes p (xs ++ ys) q
    → Seg nodes p xs (first_of ys q) × Seg nodes (last_of p xs) ys q
Seg-split nodes p [] ys q h = (tt, h)
Seg-split nodes p ((i, e) ∷ []) ys q h = ((h.0, tt), h.1)
Seg-split nodes p ((i, e) ∷ (j, f) ∷ xs) ys q h =
    let r = Seg-split nodes (some i) ((j, f) ∷ xs) ys q h.1 in ((h.0, r.0), r.1)

pub Seg-join :
    (nodes : List (Option Node)) (p : Option ℕ) (xs ys : Items) (q : Option ℕ)
    → Seg nodes p xs (first_of ys q)
    → Seg nodes (last_of p xs) ys q
    → Seg nodes p (xs ++ ys) q
Seg-join nodes p [] ys q h k = k
Seg-join nodes p ((i, e) ∷ []) ys q h k = (h.0, k)
Seg-join nodes p ((i, e) ∷ (j, f) ∷ xs) ys q h k =
    (h.0, Seg-join nodes (some i) ((j, f) ∷ xs) ys q h.1 k)

pub Absent-split : (i : ℕ) (xs ys : Items) → Absent i (xs ++ ys) → Absent i xs × Absent i ys
Absent-split i [] ys h = (tt, h)
Absent-split i (x ∷ xs) ys h = let r = Absent-split i xs ys h.1 in ((h.0, r.0), r.1)

pub Absent-join : (i : ℕ) (xs ys : Items) → Absent i xs → Absent i ys → Absent i (xs ++ ys)
Absent-join i [] ys h k = k
Absent-join i (x ∷ xs) ys h k = (h.0, Absent-join i xs ys h.1 k)

-- A segment survives a change of the arena elsewhere.
pub Seg-frame :
    (nodes nodes' : List (Option Node)) (i : ℕ)
    → ((j : ℕ) → i ≢ j → slot nodes' j ≡ slot nodes j)
    → (p : Option ℕ) (xs : Items) (q : Option ℕ) → Absent i xs
    → Seg nodes p xs q
    → Seg nodes' p xs q
Seg-frame nodes nodes' i same p [] q a h = tt
Seg-frame nodes nodes' i same p ((j, e) ∷ xs) q a h =
    (same j a.0 ∙ h.0, Seg-frame nodes nodes' i same (some j) xs q a.1 h.1)

pub slot-modify_ne :
    (nodes : List (Option Node)) (i : ℕ) (f : Node → Node) (j : ℕ)
    → i ≢ j
    → slot (modify nodes i f) j ≡ slot nodes j
slot-modify_ne nodes i f j h = ground (arith, slot-modify nodes i f j)

pub slot-modify_self :
    (nodes : List (Option Node)) (i : ℕ) (f : Node → Node) (v : Node)
    → slot nodes i ≡ some v
    → slot (modify nodes i f) i ≡ some (f v)
slot-modify_self nodes i f v h = ground (arith, slot-modify nodes i f i)

abbrev pub relink_next : Option ℕ → Option ℕ → List (Option Node) → List (Option Node)
relink_next none q nodes = nodes
relink_next (some i) q nodes = modify nodes i (λ n. record n { next = q })

abbrev pub relink_prev : Option ℕ → Option ℕ → List (Option Node) → List (Option Node)
relink_prev none p nodes = nodes
relink_prev (some i) p nodes = modify nodes i (λ n. record n { prev = p })

pub Absent-last_idx :
    (i j : ℕ) (e : Payload) (xs : Items) → Absent i ((j, e) ∷ xs) → i ≢ last_idx j xs
Absent-last_idx i j e [] a = a.0
Absent-last_idx i j e ((k, f) ∷ xs) a = Absent-last_idx i k f xs a.1

-- Retargeting the last item of a segment.
Seg-modify_last :
    (nodes : List (Option Node)) (i : ℕ) (e : Payload) (xs : Items) (p q q' : Option ℕ)
    → Distinct ((i, e) ∷ xs)
    → Seg nodes p ((i, e) ∷ xs) q
    → Seg (modify nodes (last_idx i xs) (λ n. record n { next = q' })) p ((i, e) ∷ xs) q'
Seg-modify_last nodes i e [] p q q' d h = (slot-modify_self nodes i _ _ h.0, tt)
Seg-modify_last nodes i e ((j, f) ∷ xs) p q q' d h = (
  slot-modify_ne nodes (last_idx j xs) _ i (λ eq. Absent-last_idx i j f xs d.0 (sym eq)) ∙ h.0,
  Seg-modify_last nodes j f xs (some i) q q' d.1 h.1,
)

pub Seg-relink_next :
    (nodes : List (Option Node)) (xs : Items) (q q' : Option ℕ)
    → Distinct xs
    → Seg nodes none xs q
    → Seg (relink_next (last_of none xs) q' nodes) none xs q'
Seg-relink_next nodes [] q q' d h = tt
Seg-relink_next nodes ((i, e) ∷ xs) q q' d h = Seg-modify_last nodes i e xs none q q' d h

pub Seg-relink_prev :
    (nodes : List (Option Node)) (xs : Items) (p p' q : Option ℕ)
    → Distinct xs
    → Seg nodes p xs q
    → Seg (relink_prev (first_of xs none) p' nodes) p' xs q
Seg-relink_prev nodes [] p p' q d h = tt
Seg-relink_prev nodes ((i, e) ∷ xs) p p' q d h = (
  slot-modify_self nodes i _ _ h.0,
  Seg-frame nodes (modify nodes i _) i (λ j n. slot-modify_ne nodes i _ j n) (some i) xs q d.0 h.1,
)
