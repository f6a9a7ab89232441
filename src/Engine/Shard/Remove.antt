-- ===== src/Engine/Shard/Remove.antt =====
-- `remove_idx` on a well-formed shard: it takes the item out and recycles its slot.
use hybird_kv.Prelude.{
  ℕ, ◌<◌, ◌≡◌, ◌≢◌, refl, sym, ◌∙◌, Option, none, some, List, ◌∷◌, ◌++◌, arith, ret, index-some,
  assign-ret, slot, slot-set, slot-lt, set, length, length-set, length-append, length-modify,
  ℕ_discrete,
}
use hybird_kv.Engine.HashMap.{HashMap}
use hybird_kv.Engine.Node.{Node}
use hybird_kv.Engine.Shard.{ShardInner, remove_idx}
use hybird_kv.Engine.Shard.Links.{
  Payload, Items, with_links, first_of, last_of, Absent, Seg-split, Seg-frame, Absent-split,
  Absent-join, relink_next, relink_prev,
}
use hybird_kv.Engine.Shard.Distinct.{Absent-before, Absent-behind}
use hybird_kv.Engine.Shard.Linked.{length-relink_next, length-relink_prev}
use hybird_kv.Engine.Shard.Unlink.{
  unlinked, without, lru_remove-IsLinked, slot-removed_self, slot-removed_ne,
}
use hybird_kv.Engine.Shard.Keys.{index_of-drop, UniqueKeys-drop}
use hybird_kv.Engine.Shard.Wf.{IsWf, FreeSlots-frame, FreeSlots-NotIn, Seg-Absent}

module _ {Map : Type 0} ⦃m : HashMap Map⦄ (s : ShardInner Map) (xs : Items) (idx : ℕ) (e : Payload)
    (ys : Items) where
  abbrev arena : List (Option Node)
  arena = unlinked s idx (last_of none xs) (first_of ys none)

  -- The shard after `remove_idx`.
  abbrev pub after_remove_idx : ShardInner Map
  after_remove_idx = record (without s xs idx e ys) {
    nodes = set arena idx none;
    map = m.remove s.map e.key;
    free = idx ∷ s.free;
  }

  pub length-arena : length arena ≡ length s.nodes
  length-arena =
      let p = last_of none xs in
      let q = first_of ys none in
      length-modify (relink_prev q p (relink_next p q s.nodes)) idx _
      ∙ length-relink_prev q p (relink_next p q s.nodes)
      ∙ length-relink_next p q s.nodes

  module _ (wf : IsWf s (xs ++ (idx, e) ∷ ys)) where
    -- The slot of an item holds its node.
    pub item : slot s.nodes idx ≡ some (with_links e (last_of none xs) (first_of ys none))
    item = (Seg-split s.nodes none xs ((idx, e) ∷ ys) none wf.links.seg).1.0

    in_range : idx < length arena
    in_range = slot-lt arena idx (slot-removed_self s xs idx e ys wf.links.distinct wf.links.seg)

    slot-cleared : (j : ℕ) → (idx ≢ j → slot arena j ≡ none) → slot (set arena idx none) j ≡ none
    slot-cleared j h = elim (ℕ_discrete idx j) [
      | yes eq ↦ ground (arith, slot-set arena idx none j in_range)
      | no ne ↦ ground (arith, slot-set arena idx none j in_range, h ne)
    ]

    slot-cleared_ne : (j : ℕ) → idx ≢ j → slot (set arena idx none) j ≡ slot arena j
    slot-cleared_ne j ne = ground (arith, slot-set arena idx none j in_range)

    keep_empty : (j : ℕ) → slot s.nodes j ≡ none → slot (set arena idx none) j ≡ none
    keep_empty j h = slot-cleared j (λ ne.
        slot-removed_ne s xs idx e ys j
          (Seg-Absent s.nodes j none (xs ++ (idx, e) ∷ ys) none h wf.links.seg)
        ∙ h)

    empty_now : (j : ℕ) → Absent j (xs ++ ys) → slot (set arena idx none) j ≡ none
    empty_now j a =
        let b = Absent-split j xs ys a in
        slot-cleared j (λ ne.
          let c = Absent-join j xs ((idx, e) ∷ ys) b.0 ((λ eq. ne (sym eq)), b.1) in
          slot-removed_ne s xs idx e ys j c ∙ wf.empty_elsewhere j c)

    -- The other items stay, in their order.
    pub remove_idx-IsWf : IsWf after_remove_idx (xs ++ ys)
    remove_idx-IsWf =
        let l = (lru_remove-IsLinked s xs idx e ys wf.links).1 in
        let d = wf.links.distinct in
        let here =
          Absent-join idx xs ys (Absent-before xs idx e ys d) (Absent-behind xs idx e ys d) in
        record {
          links = record {
            at_head = l.at_head;
            at_tail = l.at_tail;
            seg =
                Seg-frame arena (set arena idx none) idx slot-cleared_ne none (xs ++ ys) none here
                  l.seg;
            distinct = l.distinct;
          };
          empty_elsewhere = empty_now;
          unique = UniqueKeys-drop xs idx e ys wf.unique;
          mapped = λ k.
              m.get-remove s.map e.key k ∙ rw (wf.mapped k) (index_of-drop k xs idx e ys wf.unique);
          free_slots = (
            omega (arith, length-set arena idx none, in_range),
            slot-cleared idx (λ ne. absurd (ne refl)),
            FreeSlots-NotIn s.nodes idx _ s.free item wf.free_slots,
            FreeSlots-frame s.nodes (set arena idx none) s.free
                (length-set arena idx none ∙ length-arena) keep_empty wf.free_slots,
          );
          count = omega (
            arith,
            wf.count,
            length-append xs ys,
            length-append xs ((idx, e) ∷ ys),
            length-arena,
            length-set arena idx none,
          );
        }

    -- `remove_idx` returns, with the size of the item.
    pub remove_idx-ret : remove_idx s idx ≡ ret (after_remove_idx, some e.size)
    unfolding remove_idx
    remove_idx-ret = rw (index-some s.nodes idx _ item) (
        rw ((lru_remove-IsLinked s xs idx e ys wf.links).0)
          (rw (assign-ret arena idx none in_range)))

    -- `remove_idx` of a slot that holds an item returns, with the size of the item, and the other
    -- items stay, in their order, in a well-formed shard.
    pub remove_idx-removes :
        (s' : ShardInner Map) × (remove_idx s idx ≡ ret (s', some e.size)) × IsWf s' (xs ++ ys)
    remove_idx-removes = (after_remove_idx, remove_idx-ret, remove_idx-IsWf)
