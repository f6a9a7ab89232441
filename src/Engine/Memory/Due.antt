-- ===== src/Engine/Memory/Due.antt =====
-- What `pop_due_expiration` takes off the heap of a shard whose deadlines are all scheduled.
use hybird_kv.Prelude.{
  ℕ, suc, ◌≤◌, ◌<◌, ◌≡◌, ◌≢◌, refl, ◌∙◌, ap, Bool, true, false, Bool-cases, inl, inr, Option, none,
  some, List, [], ◌∷◌, arith, length, slot, ltb, ◌==◌, ==_iff,
}
use hybird_kv.Engine.Node.{Node, ExpirationEntry, is_index, is_live, pop_due}
use hybird_kv.Engine.Heap.{NoEarlier, Ascending, NoEarlier-le}
use hybird_kv.Engine.Shard.Links.{Payload, Items, with_links, first_of, Seg}
use hybird_kv.Engine.Memory.Contents.{All, Scheduled}

-- The item has its node, with its deadline and its token.
abbrev pub HasNode : List (Option Node) → ℕ × Payload → Type 0
HasNode nodes it =
    (v : Node) × (slot nodes it.0 ≡ some v)
    × (v.ttl_token ≡ it.1.ttl_token)
    × (v.expires_at ≡ it.1.expires_at)

pub Seg-HasNode :
    (nodes : List (Option Node)) (p : Option ℕ) (xs : Items) (q : Option ℕ)
    → Seg nodes p xs q
    → All (HasNode nodes) xs
Seg-HasNode nodes p [] q g = tt
Seg-HasNode nodes p ((i, e) ∷ xs) q g =
    ((with_links e p (first_of xs q), g.0, refl, refl), Seg-HasNode nodes (some i) xs q g.1)

-- The heap's entry of an item with a deadline.
abbrev pub entry_for : ℕ × Payload → ℕ → ExpirationEntry
entry_for it d = record { expires_at = d; idx = it.0; token = it.1.ttl_token }

module _ (nodes : List (Option Node)) (now : ℕ) where
  HasNode-is_live :
      (it : ℕ × Payload) (d : ℕ)
      → HasNode nodes it
      → it.1.expires_at ≡ some d
      → is_live nodes (entry_for it d) ≡ true
  unfolding is_live is_index
  HasNode-is_live it d (v, s, t, x) h =
      let same_token : (v.ttl_token == it.1.ttl_token) ≡ true = (==_iff _ _).1 t in
      let same_deadline : is_index (some d) d ≡ true = (==_iff d d).1 refl in
      rw (s, is_live) (rw same_token (rw (x ∙ h) same_deadline))

  -- An entry of the heap that is not live belongs to no item.
  Scheduled-stale :
      (it : ℕ × Payload) (entry : ExpirationEntry) (heap : List ExpirationEntry)
      → is_live nodes entry ≡ false
      → HasNode nodes it
      → Scheduled (entry ∷ heap) it
      → Scheduled heap it
  Scheduled-stale it entry heap stale n s d h = elim (s d h) [
    | inl eq ↦ absurd (both_ways (HasNode-is_live it d n h) (ap (is_live nodes) eq ∙ stale))
    | inr r ↦ r
  ]
    where
      both_ways : {t : Bool} → t ≡ true → t ≡ false → ⊥
      both_ways a b = cc

  -- What a pop gives: no entry, and then no deadline up to now is left, or a live entry that is
  -- due.
  pub data Popped (heap : List ExpirationEntry) : Type 0 where
    no_due :
        (rest : List ExpirationEntry)
        → pop_due nodes now heap ≡ (none, rest)
        → NoEarlier (suc now) rest
        → Ascending rest
        → ((it : ℕ × Payload) → HasNode nodes it → Scheduled heap it → Scheduled rest it)
        → Popped heap
    due :
        (entry : ExpirationEntry) (rest : List ExpirationEntry)
        → pop_due nodes now heap ≡ (some entry, rest)
        → entry.expires_at ≤ now
        → is_live nodes entry ≡ true
        → Ascending rest
        → length rest < length heap
        → ((it : ℕ × Payload)
            → HasNode nodes it
            → it.0 ≢ entry.idx
            → Scheduled heap it
            → Scheduled rest it)
        → Popped heap

  stale_dropped :
      (entry : ExpirationEntry) (heap : List ExpirationEntry)
      → ltb now entry.expires_at ≡ false
      → is_live nodes entry ≡ false
      → pop_due nodes now (entry ∷ heap) ≡ pop_due nodes now heap
  unfolding pop_due
  stale_dropped entry heap past stale = rw (past, pop_due) (rw (stale, pop_due) refl)

  first_due :
      (entry : ExpirationEntry) (heap : List ExpirationEntry)
      → ltb now entry.expires_at ≡ false
      → is_live nodes entry ≡ true
      → pop_due nodes now (entry ∷ heap) ≡ (some entry, heap)
  unfolding pop_due
  first_due entry heap past is_due = rw (past, pop_due) (rw (is_due, pop_due) refl)

  first_later :
      (entry : ExpirationEntry) (heap : List ExpirationEntry)
      → ltb now entry.expires_at ≡ true
      → pop_due nodes now (entry ∷ heap) ≡ (none, entry ∷ heap)
  unfolding pop_due
  first_later entry heap later = rw (later, pop_due) refl

  after_stale :
      (entry : ExpirationEntry) (heap : List ExpirationEntry)
      → ltb now entry.expires_at ≡ false
      → is_live nodes entry ≡ false
      → Popped heap
      → Popped (entry ∷ heap)
  after_stale entry heap past stale (no_due rest r n asc keep) =
      no_due rest (stale_dropped entry heap past stale ∙ r) n asc
        (λ it h s. keep it h (Scheduled-stale it entry heap stale h s))
  after_stale entry heap past stale (due found rest r le is_due asc shorter keep) =
      due found rest (stale_dropped entry heap past stale ∙ r) le is_due asc (omega arith)
        (λ it h ne s. keep it h ne (Scheduled-stale it entry heap stale h s))

  pub popped : (heap : List ExpirationEntry) → Ascending heap → Popped heap
  unfolding pop_due
  popped [] a = no_due [] refl tt tt (λ it n s. s)
  popped (entry ∷ heap) a = elim (Bool-cases (ltb now entry.expires_at)) [
    | inl later ↦
        no_due (entry ∷ heap) (first_later entry heap later)
          (
            ground (arith, later),
            NoEarlier-le (suc now) entry.expires_at heap (ground (arith, later)) a.0,
          )
          a (λ it n s. s)
    | inr past ↦ elim (Bool-cases (is_live nodes entry)) [
      | inl is_due ↦
          due entry heap (first_due entry heap past is_due) (ground (arith, past)) is_due a.1
            (omega arith)
            (λ it n ne s d h. elim (s d h) [
              | inl eq ↦ absurd (ne (ap (λ x. x.idx) eq))
              | inr r ↦ r
            ])
      | inr stale ↦ after_stale entry heap past stale (popped heap a.1)
    ]
  ]
