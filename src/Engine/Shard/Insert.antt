-- ===== src/Engine/Shard/Insert.antt =====
-- `insert_new` on a well-formed shard: the new item takes a recycled or a fresh slot, and is last.
use hybird_kv.Prelude.{
  ℕ, ◌+◌, ◌-◌, ◌<◌, ◌≡◌, ◌≢◌, refl, sym, ◌∙◌, ap, subst, Option, none, some, List, [], ◌∷◌, ◌++◌,
  arith, Bytes, ret, slot, slot-push, slot-set, set, assign-ret, length, length-append, length-set,
}
use hybird_kv.Engine.HashMap.{HashMap}
use hybird_kv.Engine.Node.{Node}
use hybird_kv.Engine.Shard.{ShardInner, take_from, take_slot, lru_push_back, insert_new}
use hybird_kv.Engine.Shard.Links.{Payload, Items, Absent, Absent-split, Seg, Seg-frame, with_links}
use hybird_kv.Engine.Shard.Linked.{IsLinked}
use hybird_kv.Engine.Shard.PushBack.{
  after_push, lru_push_back-IsLinked, length-after_push, slot-push_ne,
}
use hybird_kv.Engine.Shard.Keys.{index_of, NoKey, UniqueKeys, UniqueKeys-snoc, index_of-snoc}
use hybird_kv.Engine.Shard.Wf.{IsWf, NotIn, FreeSlots, Seg-Absent}

-- A shard with the items `xs` that has set slot `idx` aside for a new item.
record IsReserved {Map : Type 0} ⦃m : HashMap Map⦄ (s : ShardInner Map) (xs : Items) (idx : ℕ)
    : Type 0 where
  links : IsLinked s xs
  empty_elsewhere : (j : ℕ) → Absent j xs → slot s.nodes j ≡ none
  mapped : (k : Bytes) → m.get s.map k ≡ index_of k xs
  in_range : idx < length s.nodes
  vacant : slot s.nodes idx ≡ none
  kept : NotIn idx s.free
  free_slots : FreeSlots s.nodes s.free
  count : length s.nodes ≡ length xs + length s.free + 1

Seg-same :
    (nodes nodes' : List (Option Node))
    → ((j : ℕ) → slot nodes' j ≡ slot nodes j)
    → (p : Option ℕ) (xs : Items) (q : Option ℕ) → Seg nodes p xs q
    → Seg nodes' p xs q
Seg-same nodes nodes' same p [] q h = tt
Seg-same nodes nodes' same p ((j, e) ∷ xs) q h =
    (same j ∙ h.0, Seg-same nodes nodes' same (some j) xs q h.1)

slot_past_end : (nodes : List (Option Node)) → slot nodes (length nodes) ≡ none
unfolding slot
slot_past_end [] = refl
slot_past_end (x ∷ nodes) = slot_past_end nodes

module _ {Map : Type 0} ⦃m : HashMap Map⦄ (s : ShardInner Map) (xs : Items) (wf : IsWf s xs) where
  take_from-IsReserved :
      (free : List ℕ)
      → s.free ≡ free
      → FreeSlots s.nodes free
      → length s.nodes ≡ length xs + length free
      → IsReserved (take_from s free).0 xs (take_from s free).1
  unfolding take_from
  take_from-IsReserved [] eq f n =
      let grown : List (Option Node) = s.nodes ++ none ∷ [] in
      let len = length-append s.nodes (none ∷ []) in
      let last : length grown - 1 ≡ length s.nodes = omega arith in
      record {
        links = record {
          at_head = wf.links.at_head;
          at_tail = wf.links.at_tail;
          seg = Seg-same s.nodes grown (slot-push s.nodes) none xs none wf.links.seg;
          distinct = wf.links.distinct;
        };
        empty_elsewhere = λ j a. slot-push s.nodes j ∙ wf.empty_elsewhere j a;
        mapped = wf.mapped;
        in_range = omega arith;
        vacant = rw last (slot-push s.nodes (length s.nodes) ∙ slot_past_end s.nodes);
        kept = subst (NotIn (length grown - 1)) (sym eq) tt;
        free_slots = subst (FreeSlots grown) (sym eq) tt;
        count = omega (arith, ap length eq);
      }
  take_from-IsReserved (i ∷ rest) eq f n = record {
    links = record {
      at_head = wf.links.at_head;
      at_tail = wf.links.at_tail;
      seg = wf.links.seg;
      distinct = wf.links.distinct;
    };
    empty_elsewhere = wf.empty_elsewhere;
    mapped = wf.mapped;
    in_range = f.0;
    vacant = f.1;
    kept = f.2;
    free_slots = f.3;
    count = omega arith;
  }

  take_slot-IsReserved : IsReserved (take_slot s).0 xs (take_slot s).1
  unfolding take_slot
  take_slot-IsReserved = take_from-IsReserved s.free refl wf.free_slots wf.count

  ttl_heap-take_slot : (take_slot s).0.ttl_heap ≡ s.ttl_heap
  unfolding take_slot
  ttl_heap-take_slot = go s.free
    where
      go : (free : List ℕ) → (take_from s free).0.ttl_heap ≡ s.ttl_heap
      go [] = refl
      go (i ∷ rest) = refl

module _ {Map : Type 0} ⦃m : HashMap Map⦄ (s : ShardInner Map) (xs : Items) (idx : ℕ) (e : Payload)
    (r : IsReserved s xs idx) where
  abbrev stored : List (Option Node)
  stored = set s.nodes idx (some (with_links e none none))

  abbrev linked : ShardInner Map
  linked = after_push (record s { nodes = stored }) idx

  abbrev inserted : ShardInner Map
  inserted = record linked { map = m.insert linked.map e.key idx }

  outside : Absent idx xs
  outside = Seg-Absent s.nodes idx none xs none r.vacant r.links.seg

  slot-stored : (j : ℕ) → idx ≢ j → slot stored j ≡ slot s.nodes j
  slot-stored j ne =
      ground (arith, slot-set s.nodes idx (some (with_links e none none)) j r.in_range)

  stored-IsLinked : IsLinked (record s { nodes = stored }) xs
  stored-IsLinked = record {
    at_head = r.links.at_head;
    at_tail = r.links.at_tail;
    seg = Seg-frame s.nodes stored idx slot-stored none xs none outside r.links.seg;
    distinct = r.links.distinct;
  }

  slot-stored_self : slot stored idx ≡ some (with_links e none none)
  slot-stored_self =
      ground (arith, slot-set s.nodes idx (some (with_links e none none)) idx r.in_range)

  linked_lem :
      (lru_push_back (record s { nodes = stored }) idx ≡ ret linked)
      × IsLinked linked (xs ++ (idx, e) ∷ [])
  linked_lem =
      lru_push_back-IsLinked (record s { nodes = stored }) idx xs e slot-stored_self outside
        stored-IsLinked

  slot-linked : (j : ℕ) → Absent j xs → idx ≢ j → slot linked.nodes j ≡ slot s.nodes j
  slot-linked j a ne =
      slot-push_ne (record s { nodes = stored }) idx xs j a ne stored-IsLinked ∙ slot-stored j ne

  length-linked : length linked.nodes ≡ length s.nodes
  length-linked =
      length-after_push (record s { nodes = stored }) idx
      ∙ length-set s.nodes idx (some (with_links e none none))

  -- The recycled slots are not the one that was set aside.
  free-linked :
      (free : List ℕ) → NotIn idx free → FreeSlots s.nodes free → FreeSlots linked.nodes free
  free-linked [] n f = tt
  free-linked (i ∷ free) n f = (
    omega (arith, length-linked),
    slot-linked i (Seg-Absent s.nodes i none xs none f.1 r.links.seg) n.0 ∙ f.1,
    f.2,
    free-linked free n.1 f.3,
  )

  inserted-IsWf : UniqueKeys xs → NoKey e.key xs → IsWf inserted (xs ++ (idx, e) ∷ [])
  inserted-IsWf u k = record {
    links = record {
      at_head = linked_lem.1.at_head;
      at_tail = linked_lem.1.at_tail;
      seg = linked_lem.1.seg;
      distinct = linked_lem.1.distinct;
    };
    empty_elsewhere = λ j a.
        let b = Absent-split j xs ((idx, e) ∷ []) a in
        slot-linked j b.0 (λ eq. b.1.0 (sym eq)) ∙ r.empty_elsewhere j b.0;
    unique = UniqueKeys-snoc xs idx e u k;
    mapped = λ j. m.get-insert s.map e.key idx j ∙ rw (r.mapped j) (index_of-snoc j xs idx e k);
    free_slots = free-linked s.free r.kept r.free_slots;
    count = omega (arith, r.count, length-linked, length-append xs ((idx, e) ∷ []));
  }

abbrev pub fresh : Bytes → Bytes → ℕ → Payload
fresh key value size = record {
  key = key;
  value = value;
  expires_at = none;
  ttl_token = 0;
  size = size;
}

module _ {Map : Type 0} ⦃m : HashMap Map⦄ (s : ShardInner Map) (xs : Items) (wf : IsWf s xs) where
  -- `insert_new` of a key that is not there returns a slot, and the new item is the most recent.
  pub insert_new-IsWf :
      (key value : Bytes) (size : ℕ)
      → NoKey key xs
      → (s' : ShardInner Map) × (idx : ℕ) × (insert_new s key value size ≡ ret (s', idx))
        × IsWf s' (xs ++ (idx, fresh key value size) ∷ [])
        × (s'.ttl_heap ≡ s.ttl_heap)
  unfolding insert_new
  insert_new-IsWf key value size k =
      let s1 = (take_slot s).0 in
      let idx = (take_slot s).1 in
      let e = fresh key value size in
      let r = take_slot-IsReserved s xs wf in
      (
        inserted s1 xs idx e r,
        idx,
        rw (assign-ret s1.nodes idx (some (with_links e none none)) r.in_range)
            (rw ((linked_lem s1 xs idx e r).0)),
        inserted-IsWf s1 xs idx e r wf.unique k,
        ttl_heap-take_slot s xs wf,
      )
