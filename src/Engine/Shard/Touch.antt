-- ===== src/Engine/Shard/Touch.antt =====
-- `touch` on a well-formed shard: it moves the item to the end, the most recent place.
use hybird_kv.Prelude.{
  ℕ, ◌≡◌, refl, sym, ◌∙◌, ap, subst, none, [], ◌∷◌, ◌++◌, append-nil, arith, ret, slot, length,
  length-append, Bool-cases, true, inl, inr,
}
use hybird_kv.Engine.HashMap.{HashMap}
use hybird_kv.Engine.Node.{is_index}
use hybird_kv.Engine.Shard.{ShardInner, touch, lru_push_back}
use hybird_kv.Engine.Shard.Links.{
  Payload, Items, last_of, last_of-append, Absent-last_idx, Absent, Absent-split, Absent-join,
}
use hybird_kv.Engine.Shard.Distinct.{Absent-before, Absent-behind}
use hybird_kv.Engine.Shard.Linked.{IsLinked}
use hybird_kv.Engine.Shard.Unlink.{without, lru_remove-IsLinked, slot-removed_self, slot-removed_ne}
use hybird_kv.Engine.Shard.PushBack.{
  after_push, lru_push_back-IsLinked, length-after_push, slot-push_ne,
}
use hybird_kv.Engine.Shard.Remove.{length-arena}
use hybird_kv.Engine.Shard.Keys.{UniqueKeys-drop, UniqueKeys-snoc, NoKey-others}
use hybird_kv.Engine.Shard.Keys.{index_of-move}
use hybird_kv.Engine.Shard.Wf.{IsWf, FreeSlots-frame, Seg-Absent}

-- The tail is `i` only if nothing stands behind it.
last_of_tail :
    (xs : Items) (i : ℕ) (e : Payload) (ys : Items)
    → Absent i ys
    → is_index (last_of none (xs ++ (i, e) ∷ ys)) i ≡ true
    → ys ≡ []
unfolding is_index
last_of_tail xs i e [] a h = refl
last_of_tail xs i e ((j, f) ∷ ys) a h =
    absurd
      (ground (arith, last_of-append none xs ((i, e) ∷ (j, f) ∷ ys), Absent-last_idx i j f ys a))

module _ {Map : Type 0} ⦃m : HashMap Map⦄ (s : ShardInner Map) (xs : Items) (idx : ℕ) (e : Payload)
    (ys : Items) where
  -- The shard after `lru_remove` and `lru_push_back`.
  abbrev moved : ShardInner Map
  moved = after_push (without s xs idx e ys) idx

  module _ (wf : IsWf s (xs ++ (idx, e) ∷ ys)) where
    apart : Absent idx (xs ++ ys)
    apart =
        Absent-join idx xs ys (Absent-before xs idx e ys wf.links.distinct)
          (Absent-behind xs idx e ys wf.links.distinct)

    relinked :
        (lru_push_back (without s xs idx e ys) idx ≡ ret moved)
        × IsLinked moved ((xs ++ ys) ++ (idx, e) ∷ [])
    relinked =
        lru_push_back-IsLinked (without s xs idx e ys) idx (xs ++ ys) e
          (slot-removed_self s xs idx e ys wf.links.distinct wf.links.seg) apart
          (lru_remove-IsLinked s xs idx e ys wf.links).1

    slot-moved : (j : ℕ) → Absent j (xs ++ (idx, e) ∷ ys) → slot moved.nodes j ≡ slot s.nodes j
    slot-moved j a =
        let b = Absent-split j xs ((idx, e) ∷ ys) a in
        slot-push_ne (without s xs idx e ys) idx (xs ++ ys) j (Absent-join j xs ys b.0 b.1.1)
          (λ eq. b.1.0 (sym eq)) (lru_remove-IsLinked s xs idx e ys wf.links).1
        ∙ slot-removed_ne s xs idx e ys j a

    moved_empty : (j : ℕ) → Absent j ((xs ++ ys) ++ (idx, e) ∷ []) → slot moved.nodes j ≡ none
    moved_empty j a =
        let b = Absent-split j (xs ++ ys) ((idx, e) ∷ []) a in
        let c = Absent-split j xs ys b.0 in
        let d = Absent-join j xs ((idx, e) ∷ ys) c.0 (b.1.0, c.1) in
        slot-moved j d ∙ wf.empty_elsewhere j d

    length-moved : length moved.nodes ≡ length s.nodes
    length-moved = length-after_push (without s xs idx e ys) idx ∙ length-arena s xs idx e ys

    moved-IsWf : IsWf moved ((xs ++ ys) ++ (idx, e) ∷ [])
    moved-IsWf = record {
      links = relinked.1;
      empty_elsewhere = moved_empty;
      unique =
          UniqueKeys-snoc (xs ++ ys) idx e (UniqueKeys-drop xs idx e ys wf.unique)
            (NoKey-others xs idx e ys wf.unique);
      mapped = λ k. wf.mapped k ∙ index_of-move k xs idx e ys wf.unique;
      free_slots =
          FreeSlots-frame s.nodes moved.nodes s.free length-moved
            (λ j h.
              slot-moved j (Seg-Absent s.nodes j none (xs ++ (idx, e) ∷ ys) none h wf.links.seg)
              ∙ h)
            wf.free_slots;
      count = omega (
        arith,
        wf.count,
        length-moved,
        length-append xs ((idx, e) ∷ ys),
        length-append xs ys,
        length-append (xs ++ ys) ((idx, e) ∷ []),
      );
    }

    already_last : ys ≡ [] → IsWf s ((xs ++ ys) ++ (idx, e) ∷ [])
    already_last eq =
        subst (IsWf s)
          (ap (λ zs. xs ++ (idx, e) ∷ zs) eq
            ∙ sym (ap (λ zs. zs ++ (idx, e) ∷ []) (ap (λ zs. xs ++ zs) eq ∙ append-nil xs)))
          wf

    -- `touch` returns, the item is the most recent one, and the heap is as before.
    pub touch-IsWf :
        (s' : ShardInner Map) × (touch s idx ≡ ret s')
        × IsWf s' ((xs ++ ys) ++ (idx, e) ∷ [])
        × (s'.ttl_heap ≡ s.ttl_heap)
    unfolding touch
    touch-IsWf = elim (Bool-cases (is_index s.tail idx)) [
      | inl same ↦ (
        s,
        rw same,
        already_last (
            last_of_tail xs idx e ys (Absent-behind xs idx e ys wf.links.distinct)
              (subst (λ t. is_index t idx ≡ true) wf.links.at_tail same)),
        refl,
      )
      | inr other ↦ (
        moved,
        rw other (rw ((lru_remove-IsLinked s xs idx e ys wf.links).0) relinked.0),
        moved-IsWf,
        refl,
      )
    ]
