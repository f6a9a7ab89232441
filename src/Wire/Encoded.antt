-- ===== src/Wire/Encoded.antt =====
-- What `encode_command` writes.
use hybird_kv.Prelude.{
  ℕ, ◌+◌, ◌<◌, ◌≡◌, refl, sym, ◌∙◌, ap, List, [], ◌∷◌, ◌++◌, append_assoc, append-nil, Bytes, ret,
  panic, arith, length,
}
use hybird_kv.Engine.Word.{word}
use hybird_kv.Wire.Decimal.{NoCr, ok, push_usize, parse_usize, push_usize-parse_usize}
use hybird_kv.Wire.Encode.{encode_args, encode_command}

-- Arguments whose lengths leave room for a line end in a machine word.
abbrev pub Fit : List Bytes → Type 0
Fit [] = Unit
Fit (a ∷ as') = (length a + 2 < word) × Fit as'

-- A length as it stands on the wire.
abbrev pub Writes : ℕ → Bytes → Type 0
Writes n ds = NoCr ds × (parse_usize ds ≡ ok n)

-- The arguments as they stand on the wire.
pub data Body : List Bytes → Bytes → Type 0 where
  nothing : Body [] []
  argument :
      (a : Bytes) (args : List Bytes) (ds tail : Bytes)
      → Writes (length a) ds
      → Body args tail
      → Body (a ∷ args) (36 ∷ ds ++ 13 ∷ 10 ∷ a ++ 13 ∷ 10 ∷ tail)

pub encode_args-Body :
    (args : List Bytes) (out : Bytes)
    → Fit args
    → (body : Bytes) × (encode_args args out ≡ ret (out ++ body)) × Body args body
unfolding encode_args
encode_args-Body [] out h = ([], ap ret (sym (append-nil out)), nothing)
encode_args-Body (a ∷ args) out h =
    let (ds, r, nc, pd) = push_usize-parse_usize (out ++ 36 ∷ []) (length a) (omega (arith, h.0)) in
    let (tail, q, b) =
      encode_args-Body args (((out ++ 36 ∷ []) ++ ds) ++ (13 ∷ 10 ∷ a ++ 13 ∷ 10 ∷ [])) h.1 in
    (
      36 ∷ ds ++ 13 ∷ 10 ∷ a ++ 13 ∷ 10 ∷ tail,
      rw r (q ∙ ap ret (simp append_assoc)),
      argument a args ds tail (nc, pd) b,
    )

pub Body-nil : (tail : Bytes) → Body [] tail → tail ≡ []
Body-nil _ nothing = refl

pub same_result : (xs ys : Bytes) → ret xs ≡ ret ys → xs ≡ ys
same_result xs ys h = ap (λ o. elim o [ ret zs ↦ zs | panic ↦ [] ]) h

-- A command as it stands on the wire.
pub record Command (args : List Bytes) (bytes : Bytes) : Type 0 where
  pub count : Bytes
  pub body : Bytes
  pub split : bytes ≡ ((42 ∷ count) ++ 13 ∷ 10 ∷ []) ++ body
  pub counted : Writes (length args) count
  pub arguments : Body args body

pub encode_command-Command :
    (args : List Bytes) (bytes : Bytes)
    → Fit args
    → length args < word
    → encode_command args [] ≡ ret bytes
    → Command args bytes
unfolding encode_command
encode_command-Command args bytes fit few enc =
    let (ds, r, nc, pd) = push_usize-parse_usize (42 ∷ []) (length args) few in
    let (body, q, b) = encode_args-Body args ((42 ∷ ds) ++ 13 ∷ 10 ∷ []) fit in
    record {
      count = ds;
      body = body;
      split = same_result _ _ (sym enc ∙ chain ds r body q);
      counted = (nc, pd);
      arguments = b;
    }
  where
    chain :
        (ds : Bytes)
        → push_usize (42 ∷ []) (length args) ≡ ret (42 ∷ ds)
        → (body : Bytes)
        → encode_args args ((42 ∷ ds) ++ 13 ∷ 10 ∷ []) ≡ ret (((42 ∷ ds) ++ 13 ∷ 10 ∷ []) ++ body)
        → encode_command args [] ≡ ret (((42 ∷ ds) ++ 13 ∷ 10 ∷ []) ++ body)
    chain ds r body q = rw r q

-- `encode_command` of a list of arguments, fewer than 2^64 and each of a length that leaves room
-- for a line end in 64 bits, does not panic, and only appends to its buffer.
pub encode_command-ret :
    (args : List Bytes) (out : Bytes)
    → Fit args
    → length args < word
    → (bytes : Bytes) × (encode_command args out ≡ ret (out ++ bytes))
unfolding encode_command
encode_command-ret args out fit few =
    let (ds, r, nc, pd) = push_usize-parse_usize (out ++ 42 ∷ []) (length args) few in
    let (body, q, b) = encode_args-Body args (((out ++ 42 ∷ []) ++ ds) ++ 13 ∷ 10 ∷ []) fit in
    (42 ∷ ds ++ (13 ∷ 10 ∷ body), rw r (q ∙ ap ret (simp append_assoc)))
