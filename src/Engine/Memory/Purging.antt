-- ===== src/Engine/Memory/Purging.antt =====
-- `purge_expired` of hkv-engine/src/memory.rs on one shard, against the cache that the shard stands
-- for.
use hybird_kv.Prelude.{
  ℕ, zero, suc, ◌+◌, ◌≤◌, ◌<◌, ◌≡◌, ◌≢◌, refl, sym, ◌∙◌, ap, subst, Bool, true, false, ◌&&◌,
  Bool-cases, ◌⊎◌, inl, inr, Option, none, some, List, [], ◌∷◌, ◌++◌, ret, arith, length, slot,
  ◌==◌, ==_iff,
}
use hybird_kv.Engine.HashMap.{HashMap}
use hybird_kv.Engine.Word.{sub_word}
use hybird_kv.Engine.Node.{Node, ExpirationEntry, expired_by, is_index, is_live, pop_due}
use hybird_kv.Engine.Heap.{In, NoEarlier, Ascending}
use hybird_kv.Engine.Shard.{ShardInner, pop_due_expiration, remove_idx}
use hybird_kv.Engine.Shard.Links.{Payload, Items, Absent}
use hybird_kv.Engine.Shard.Wf.{IsWf}
use hybird_kv.Engine.Shard.Links.{Absent-join}
use hybird_kv.Engine.Shard.Distinct.{Absent-before, Absent-behind}
use hybird_kv.Engine.Shard.Remove.{after_remove_idx, remove_idx-IsWf, remove_idx-ret}
use hybird_kv.Engine.Memory.{Locked, on_purged, on_due, purge_loop, purge_locked}
use hybird_kv.Engine.Memory.Cache.{live, dead}
use hybird_kv.Engine.Memory.Contents.{
  All, All-drop, All-item, entry_of, view, Scheduled, IsConsistent, Yields,
}
use hybird_kv.Engine.Memory.Dropping.{drop-IsConsistent}
use hybird_kv.Engine.Memory.Due.{HasNode, Seg-HasNode, no_due, due, popped}

In-NoEarlier :
    (d : ℕ) (x : ExpirationEntry) (heap : List ExpirationEntry)
    → NoEarlier d heap
    → In x heap
    → d ≤ x.expires_at
In-NoEarlier d x [] n h = absurd h
In-NoEarlier d x (y ∷ heap) n (inl eq) = omega (arith, n.0, ap (λ e. e.expires_at) eq)
In-NoEarlier d x (y ∷ heap) n (inr r) = In-NoEarlier d x heap n.1 r

-- The item of a slot, if there is one.
holder :
    (i : ℕ) (xs : Items)
    → Absent i xs
      ⊎ ((before : Items) × (e : Payload) × (after : Items) × (xs ≡ before ++ (i, e) ∷ after))
holder i [] = inl tt
holder i ((j, f) ∷ xs) = elim (Bool-cases (i == j)) [
  | inl same ↦ inr ([], f, xs, ap (λ k. (k, f) ∷ xs) (sym ((==_iff i j).0 same)))
  | inr other ↦ elim (holder i xs) [
    | inl away ↦ inl ((λ eq. differs ((==_iff i j).1 eq) other), away)
    | inr (before, e, after, split) ↦ inr ((j, f) ∷ before, e, after, ap (◌∷◌ (j, f)) split)
  ]
]
  where
    differs : {t : Bool} → t ≡ true → t ≡ false → ⊥
    differs a b = cc

module _ (now : ℕ) where
  abbrev Fresh : ℕ × Payload → Type 0
  Fresh it = expired_by it.1.expires_at now ≡ false

  live-Fresh :
      (xs : Items) → All Fresh xs → (live now (view xs) ≡ view xs) × (dead now (view xs) ≡ 0)
  unfolding live dead
  live-Fresh [] h = (refl, refl)
  live-Fresh ((i, e) ∷ xs) h =
      let (l, d) = live-Fresh xs h.1 in (rw h.0 (ap (◌∷◌ (entry_of e)) l), rw h.0 d)

  -- Dropping an item that has expired keeps the live entries, and leaves one expired entry less.
  live-drop :
      (xs : Items) (i : ℕ) (e : Payload) (ys : Items)
      → expired_by e.expires_at now ≡ true
      → (live now (view (xs ++ (i, e) ∷ ys)) ≡ live now (view (xs ++ ys)))
        × (dead now (view (xs ++ (i, e) ∷ ys)) ≡ suc (dead now (view (xs ++ ys))))
  unfolding live dead
  live-drop [] i e ys h = (rw h refl, rw h refl)
  live-drop ((j, f) ∷ xs) i e ys h =
      let (l, d) = live-drop xs i e ys h in
      elim (Bool-cases (expired_by f.expires_at now)) [
        | inl old ↦ (rw old l, rw old (ap suc d))
        | inr new ↦ (rw new (ap (◌∷◌ (entry_of f)) l), rw new d)
      ]

  fresh :
      (rest : List ExpirationEntry) (i token : ℕ) (x : Option ℕ)
      → NoEarlier (suc now) rest
      → ((d : ℕ) → x ≡ some d → In (record { expires_at = d; idx = i; token = token }) rest)
      → expired_by x now ≡ false
  unfolding expired_by
  fresh rest i token none n s = refl
  fresh rest i token (some d) n s =
      let le : suc now ≤ d = In-NoEarlier (suc now) _ rest n (s d refl) in ground (arith, le)

  Scheduled-Fresh :
      (rest : List ExpirationEntry) (xs : Items)
      → NoEarlier (suc now) rest
      → All (Scheduled rest) xs
      → All Fresh xs
  Scheduled-Fresh rest [] n h = tt
  Scheduled-Fresh rest ((i, e) ∷ xs) n h =
      (fresh rest i e.ttl_token e.expires_at n h.0, Scheduled-Fresh rest xs n h.1)

-- Every item but that of one slot stays scheduled.
All-kept :
    (nodes : List (Option Node)) (heap rest : List ExpirationEntry) (i : ℕ) (xs : Items)
    → ((it : ℕ × Payload) → HasNode nodes it → it.0 ≢ i → Scheduled heap it → Scheduled rest it)
    → All (HasNode nodes) xs
    → All (Scheduled heap) xs
    → Absent i xs
    → All (Scheduled rest) xs
All-kept nodes heap rest i [] keep n s a = tt
All-kept nodes heap rest i (it ∷ xs) keep n s a =
    (keep it n.0 (λ eq. a.0 (sym eq)) s.0, All-kept nodes heap rest i xs keep n.1 s.1 a.1)

All-Scheduled :
    (nodes : List (Option Node)) (heap rest : List ExpirationEntry) (xs : Items)
    → ((it : ℕ × Payload) → HasNode nodes it → Scheduled heap it → Scheduled rest it)
    → All (HasNode nodes) xs
    → All (Scheduled heap) xs
    → All (Scheduled rest) xs
All-Scheduled nodes heap rest [] keep n s = tt
All-Scheduled nodes heap rest (it ∷ xs) keep n s =
    (keep it n.0 s.0, All-Scheduled nodes heap rest xs keep n.1 s.1)

same_deadline : (x : Option ℕ) (d : ℕ) → is_index x d ≡ true → x ≡ some d
unfolding is_index
same_deadline none d h = cc
same_deadline (some c) d h = ap some ((==_iff c d).0 h)

both : (x y : Bool) → (x && y) ≡ true → (x ≡ true) × (y ≡ true)
both true y h = (refl, h)
both false y h = cc

is_live-some :
    (nodes : List (Option Node)) (entry : ExpirationEntry) (v : Node)
    → slot nodes entry.idx ≡ some v
    → is_live nodes entry ≡ (v.ttl_token == entry.token && is_index v.expires_at entry.expires_at)
unfolding is_live
is_live-some nodes entry v s = rw (s, is_live) refl

is_live-none :
    (nodes : List (Option Node)) (entry : ExpirationEntry)
    → slot nodes entry.idx ≡ none
    → is_live nodes entry ≡ false
unfolding is_live
is_live-none nodes entry s = rw (s, is_live) refl

live_item :
    (nodes : List (Option Node)) (entry : ExpirationEntry) (e : Payload)
    → HasNode nodes (entry.idx, e)
    → is_live nodes entry ≡ true
    → e.expires_at ≡ some entry.expires_at
live_item nodes entry e (v, s, t, x) h =
    sym x
    ∙ same_deadline v.expires_at entry.expires_at
        (both _ _ (sym (is_live-some nodes entry v s) ∙ h)).1

live_slot :
    (nodes : List (Option Node)) (entry : ExpirationEntry)
    → is_live nodes entry ≡ true
    → slot nodes entry.idx ≡ none
    → ⊥
live_slot nodes entry h e = cc (sym h ∙ is_live-none nodes entry e)

expired_at : (now d : ℕ) (x : Option ℕ) → x ≡ some d → d ≤ now → expired_by x now ≡ true
unfolding expired_by
expired_at now d x h le = rw h (ground (arith, le))

module _ {Map : Type 0} ⦃m : HashMap Map⦄ where
  -- The invariant does not look at the heap.
  IsWf-heap :
      (s : ShardInner Map) (xs : Items) (heap : List ExpirationEntry)
      → IsWf s xs
      → IsWf (record s { ttl_heap = heap }) xs
  IsWf-heap s xs heap w = record {
    links = record {
      at_head = w.links.at_head;
      at_tail = w.links.at_tail;
      seg = w.links.seg;
      distinct = w.links.distinct;
    };
    empty_elsewhere = w.empty_elsewhere;
    unique = w.unique;
    mapped = w.mapped;
    free_slots = w.free_slots;
    count = w.count;
  }

  module _ (now : ℕ) where
    -- The rounds of the loop.
    last_round :
        (fuel n : ℕ) (l : Locked Map) (rest : List ExpirationEntry)
        → pop_due l.inner.nodes now l.inner.ttl_heap ≡ (none, rest)
        → purge_loop (suc fuel) now n l
          ≡ ret (record l { inner = record l.inner { ttl_heap = rest } }, n)
    unfolding purge_loop pop_due_expiration on_due
    last_round fuel n l rest p =
        ap (λ r. on_due (purge_loop fuel now) l n (record l.inner { ttl_heap = r.1 }, r.0)) p

    abbrev popped_shard : Locked Map → List ExpirationEntry → ShardInner Map
    popped_shard l rest = record l.inner { ttl_heap = rest }

    one_round :
        (fuel n : ℕ) (l : Locked Map) (entry : ExpirationEntry) (rest : List ExpirationEntry)
        (s' : ShardInner Map) (size : ℕ)
        → pop_due l.inner.nodes now l.inner.ttl_heap ≡ (some entry, rest)
        → remove_idx (popped_shard l rest) entry.idx ≡ ret (s', some size)
        → purge_loop (suc fuel) now n l
          ≡ purge_loop fuel now
              (n + 1)
              (record l { inner = s'; used_bytes = sub_word l.used_bytes size })
    unfolding purge_loop pop_due_expiration on_due on_purged
    one_round fuel n l entry rest s' size p r =
        ap (λ r. on_due (purge_loop fuel now) l n (record l.inner { ttl_heap = r.1 }, r.0)) p
        ∙ rw (r, on_due) refl

    purge_loop-none :
        (fuel n : ℕ) (l : Locked Map) (xs : Items) (other : ℕ) (rest : List ExpirationEntry)
        → IsConsistent l xs other
        → Ascending rest
        → pop_due l.inner.nodes now l.inner.ttl_heap ≡ (none, rest)
        → NoEarlier (suc now) rest
        → ((it : ℕ × Payload)
            → HasNode l.inner.nodes it
            → Scheduled l.inner.ttl_heap it
            → Scheduled rest it)
        → Yields (purge_loop (suc fuel) now n l) other (live now (view xs), n + dead now (view xs))
    purge_loop-none fuel n l xs other rest c asc p late keep =
        let nodes = Seg-HasNode l.inner.nodes none xs none c.wf.links.seg in
        let scheduled =
          All-Scheduled l.inner.nodes l.inner.ttl_heap rest xs keep nodes c.scheduled in
        let (alive, none_dead) = live-Fresh now xs (Scheduled-Fresh now rest xs late scheduled) in
        record {
          state = record l { inner = popped_shard l rest };
          items = xs;
          returns =
              last_round fuel n l rest p
              ∙ ap (λ k. ret (record l { inner = popped_shard l rest }, k))
                  (omega (arith, none_dead));
          consistent = record {
            wf = IsWf-heap l.inner xs rest c.wf;
            sized = c.sized;
            used = c.used;
            scheduled = scheduled;
            ascending = asc;
          };
          viewed = sym alive;
        }

    purge_loop-some :
        (fuel n : ℕ) (l : Locked Map) (xs : Items) (i : ℕ) (e : Payload) (ys : Items)
        (other token : ℕ) (d : ℕ) (rest : List ExpirationEntry)
        → IsConsistent l (xs ++ (i, e) ∷ ys) other
        → pop_due l.inner.nodes now l.inner.ttl_heap
          ≡ (some (record { expires_at = d; idx = i; token = token }), rest)
        → Ascending rest
        → e.expires_at ≡ some d
        → d ≤ now
        → ((it : ℕ × Payload)
            → HasNode l.inner.nodes it
            → it.0 ≢ i
            → Scheduled l.inner.ttl_heap it
            → Scheduled rest it)
        → ((l' : Locked Map)
            → IsConsistent l' (xs ++ ys) other
            → l'.inner.ttl_heap ≡ rest
            → Yields
                (purge_loop fuel now (n + 1) l')
                other
                (live now (view (xs ++ ys)), n + 1 + dead now (view (xs ++ ys))))
        → Yields
            (purge_loop (suc fuel) now n l)
            other
            (live now (view (xs ++ (i, e) ∷ ys)), n + dead now (view (xs ++ (i, e) ∷ ys)))
    purge_loop-some fuel n l xs i e ys other token d rest c p asc x le keep ih =
        let s1 : ShardInner Map = popped_shard l rest in
        let wf1 : IsWf s1 (xs ++ (i, e) ∷ ys) = IsWf-heap l.inner (xs ++ (i, e) ∷ ys) rest c.wf in
        let s2 : ShardInner Map = after_remove_idx s1 xs i e ys in
        let l2 : Locked Map = record l { inner = s2; used_bytes = sub_word l.used_bytes e.size } in
        let dropped = drop-IsConsistent l xs i e ys other c in
        let distinct = c.wf.links.distinct in
        let away : Absent i (xs ++ ys) =
          Absent-join i xs ys (Absent-before xs i e ys distinct)
            (Absent-behind xs i e ys distinct) in
        let nodes = Seg-HasNode l.inner.nodes none (xs ++ (i, e) ∷ ys) none c.wf.links.seg in
        let c2 : IsConsistent l2 (xs ++ ys) other = record {
          wf = remove_idx-IsWf s1 xs i e ys wf1;
          sized = dropped.sized;
          used = dropped.used;
          scheduled =
              All-kept l.inner.nodes l.inner.ttl_heap rest i (xs ++ ys) keep
                (All-drop (HasNode l.inner.nodes) xs (i, e) ys nodes)
                (All-drop (Scheduled l.inner.ttl_heap) xs (i, e) ys c.scheduled) away;
          ascending = asc;
        } in
        let (alive, fewer) = live-drop now xs i e ys (expired_at now d e.expires_at x le) in
        let r = ih l2 c2 refl in
        record {
          state = r.state;
          items = r.items;
          returns =
              one_round fuel n l _ rest s2 e.size p (remove_idx-ret s1 xs i e ys wf1)
              ∙ r.returns
              ∙ ap (λ k. ret (r.state, k)) (omega (arith, fewer));
          consistent = r.consistent;
          viewed = r.viewed ∙ sym alive;
        }

    purge_loop-Yields :
        (fuel n : ℕ) (l : Locked Map) (xs : Items) (other : ℕ)
        → IsConsistent l xs other
        → length l.inner.ttl_heap < fuel
        → Yields (purge_loop fuel now n l) other (live now (view xs), n + dead now (view xs))
    purge_loop-Yields zero n l xs other c h = elim h [ ]
    purge_loop-Yields (suc fuel) n l xs other c h =
        elim (popped l.inner.nodes now l.inner.ttl_heap c.ascending) [
          | no_due rest p late asc keep ↦ purge_loop-none fuel n l xs other rest c asc p late keep
          | due entry rest p le is_due asc shorter keep ↦ elim (holder entry.idx xs) [
            | inl away ↦
                absurd (live_slot l.inner.nodes entry is_due (c.wf.empty_elsewhere entry.idx away))
            | inr (before, e, after, split) ↦
                let c' : IsConsistent l (before ++ (entry.idx, e) ∷ after) other =
                  subst (λ ys. IsConsistent l ys other) split c in
                let nodes =
                  Seg-HasNode l.inner.nodes none (before ++ (entry.idx, e) ∷ after) none
                    c'.wf.links.seg in
                let node = All-item (HasNode l.inner.nodes) before (entry.idx, e) after nodes in
                subst
                  (λ ys.
                    Yields (purge_loop (suc fuel) now n l) other
                      (live now (view ys), n + dead now (view ys)))
                  (sym split)
                  (purge_loop-some fuel n l before entry.idx e after other entry.token
                    entry.expires_at rest c' p asc (live_item l.inner.nodes entry e node is_due) le
                    keep
                    (λ l' k same.
                      purge_loop-Yields fuel (n + 1) l' (before ++ after) other k
                        (omega (arith, ap (length {A = ExpirationEntry}) same))))
          ]
        ]

    -- On a consistent shard the loop of `purge_expired`, with one round more than the heap has
    -- entries, ends without a panic. It drops exactly the entries that have expired, keeps the
    -- order of the others, adds the number of the dropped ones to `n`, and takes their bytes off
    -- the counter.
    pub purge_locked-refines :
        (n : ℕ) (l : Locked Map) (xs : Items) (other : ℕ)
        → IsConsistent l xs other
        → Yields (purge_locked now n l) other (live now (view xs), n + dead now (view xs))
    unfolding purge_locked
    purge_locked-refines n l xs other c =
        purge_loop-Yields (suc (length l.inner.ttl_heap)) n l xs other c (omega arith)
