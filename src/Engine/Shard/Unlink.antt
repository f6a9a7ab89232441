-- ===== src/Engine/Shard/Unlink.antt =====
-- `lru_remove` on a linked shard: it does not panic, and it takes the item out of the list.
use hybird_kv.Prelude.{
  ℕ, ◌<◌, ◌≡◌, ◌≢◌, refl, sym, subst, ◌∙◌, Option, none, some, List, [], ◌∷◌, ◌++◌, append-nil,
  arith, ret, index-some, modify_at-ret, slot, slot-lt, modify, length,
}
use hybird_kv.Engine.Node.{Node}
use hybird_kv.Engine.Shard.{ShardInner, lru_remove}
use hybird_kv.Engine.Shard.Links.{
  Payload, Items, with_links, first_of, last_of, Absent, Distinct, Seg, relink_next, relink_prev,
  last_of-append, Seg-split, Seg-join, Seg-frame, Seg-relink_next, Seg-relink_prev,
  slot-modify_self, slot-modify_ne, Absent-split,
}
use hybird_kv.Engine.Shard.Distinct.{
  Distinct-left, Distinct-right, Distinct-drop, Absent-before, Absent-behind,
}
use hybird_kv.Engine.Shard.Linked.{
  IsLinked, InBounds, set_head, length-relink_next, length-relink_prev, link_next-ret,
  link_prev-ret, relink_next-frame, relink_prev-frame, slot-relink_next, slot-relink_prev,
  last-Missing, first-Missing, last-Elsewhere, first-Elsewhere, last-InBounds, first-InBounds,
}

unlink_head :
    (h : Option ℕ) (xs : Items) (i : ℕ) (e : Payload) (ys : Items)
    → h ≡ first_of (xs ++ (i, e) ∷ ys) none
    → set_head (last_of none xs) (first_of ys none) h ≡ first_of (xs ++ ys) none
unlink_head h [] i e ys p = refl
unlink_head h (x ∷ xs) i e ys p = p

unlink_tail :
    (t : Option ℕ) (xs : Items) (i : ℕ) (e : Payload) (ys : Items)
    → t ≡ last_of none (xs ++ (i, e) ∷ ys)
    → set_head (first_of ys none) (last_of none xs) t ≡ last_of none (xs ++ ys)
unlink_tail t xs i e [] p = rw (append-nil xs)
unlink_tail t xs i e ((j, f) ∷ ys) p =
    p ∙ last_of-append none xs ((i, e) ∷ (j, f) ∷ ys) ∙ sym (last_of-append none xs ((j, f) ∷ ys))

module _ {Map : Type 0} (s : ShardInner Map) where
  -- The arena and the shard after `lru_remove` of a node between `p` and `q`.
  abbrev pub unlinked : ℕ → Option ℕ → Option ℕ → List (Option Node)
  unlinked idx p q =
      modify (relink_prev q p (relink_next p q s.nodes)) idx
        (λ n. record n { prev = none; next = none })

  abbrev pub after_remove : ℕ → Option ℕ → Option ℕ → ShardInner Map
  after_remove idx p q = record s {
    head = set_head p q s.head;
    tail = set_head q p s.tail;
    nodes = unlinked idx p q;
  }

  pub lru_remove-ret :
      (idx : ℕ) (e : Payload) (p q : Option ℕ)
      → slot s.nodes idx ≡ some (with_links e p q)
      → InBounds p (length s.nodes)
      → InBounds q (length s.nodes)
      → lru_remove s idx ≡ ret (after_remove idx p q)
  unfolding lru_remove
  lru_remove-ret idx e p q h bp bq =
      let s1 : ShardInner Map = record s {
        head = set_head p q s.head;
        nodes = relink_next p q s.nodes;
      } in
      let bq' : InBounds q (length s1.nodes) =
        subst (InBounds q) (sym (length-relink_next p q s.nodes)) bq in
      let bi : idx < length (relink_prev q p (relink_next p q s.nodes)) = omega (
        arith,
        length-relink_prev q p (relink_next p q s.nodes),
        length-relink_next p q s.nodes,
        slot-lt s.nodes idx {v = with_links e p q} h,
      ) in
      rw (index-some s.nodes idx (with_links e p q) h) (
        rw (link_next-ret s p q bp) (
          rw (link_prev-ret s1 q p bq')
            (rw (modify_at-ret (relink_prev q p (relink_next p q s.nodes)) idx _ bi))))

  module _ (xs : Items) (idx : ℕ) (e : Payload) (ys : Items) where
    abbrev pub removed : List (Option Node)
    removed = unlinked idx (last_of none xs) (first_of ys none)

    pub remove-Seg :
        Distinct (xs ++ (idx, e) ∷ ys)
        → Seg s.nodes none (xs ++ (idx, e) ∷ ys) none
        → Seg removed none (xs ++ ys) none
    remove-Seg d h =
        let p = last_of none xs in
        let q = first_of ys none in
        let n1 = relink_next p q s.nodes in
        let n2 = relink_prev q p n1 in
        let parts = Seg-split s.nodes none xs ((idx, e) ∷ ys) none h in
        let apart = Distinct-drop xs idx e ys d in
        let x1 : Seg n1 none xs q =
          Seg-relink_next s.nodes xs (some idx) q (Distinct-left xs ys apart) parts.0 in
        let y1 : Seg n1 (some idx) ys none =
          relink_next-frame s.nodes p q (some idx) ys none (last-Missing xs ys apart) parts.1.1 in
        let x2 : Seg n2 none xs q =
          relink_prev-frame n1 q p none xs q (first-Missing xs ys apart) x1 in
        let y2 : Seg n2 p ys none =
          Seg-relink_prev n1 ys (some idx) p none (Distinct-right xs ys apart) y1 in
        let same : (j : ℕ) → idx ≢ j → slot (modify n2 idx _) j ≡ slot n2 j =
          λ j n. slot-modify_ne n2 idx _ j n in
        Seg-join removed none xs ys none
          (Seg-frame n2 removed idx same none xs q (Absent-before xs idx e ys d) x2)
          (Seg-frame n2 removed idx same p ys none (Absent-behind xs idx e ys d) y2)

    -- The slot that was taken out keeps its payload, and no other slot outside the list changes.
    pub slot-removed_self :
        Distinct (xs ++ (idx, e) ∷ ys)
        → Seg s.nodes none (xs ++ (idx, e) ∷ ys) none
        → slot removed idx ≡ some (with_links e none none)
    slot-removed_self d h =
        let p = last_of none xs in
        let q = first_of ys none in
        let n1 = relink_next p q s.nodes in
        let parts = Seg-split s.nodes none xs ((idx, e) ∷ ys) none h in
        slot-modify_self (relink_prev q p n1) idx _ _ (
          slot-relink_prev n1 q p idx (first-Elsewhere idx ys (Absent-behind xs idx e ys d))
          ∙ slot-relink_next s.nodes p q idx (last-Elsewhere idx xs (Absent-before xs idx e ys d))
          ∙ parts.1.0)

    pub slot-removed_ne : (j : ℕ) → Absent j (xs ++ (idx, e) ∷ ys) → slot removed j ≡ slot s.nodes j
    slot-removed_ne j a =
        let p = last_of none xs in
        let q = first_of ys none in
        let n1 = relink_next p q s.nodes in
        let b = Absent-split j xs ((idx, e) ∷ ys) a in
        slot-modify_ne (relink_prev q p n1) idx _ j (λ eq. b.1.0 (sym eq))
        ∙ slot-relink_prev n1 q p j (first-Elsewhere j ys b.1.1)
        ∙ slot-relink_next s.nodes p q j (last-Elsewhere j xs b.0)

    abbrev pub without : ShardInner Map
    without = after_remove idx (last_of none xs) (first_of ys none)

    -- `lru_remove` returns, and the rest of the list stays linked.
    pub lru_remove-IsLinked :
        IsLinked s (xs ++ (idx, e) ∷ ys)
        → (lru_remove s idx ≡ ret without) × IsLinked without (xs ++ ys)
    lru_remove-IsLinked l =
        let parts = Seg-split s.nodes none xs ((idx, e) ∷ ys) none l.seg in
        (
          lru_remove-ret idx e (last_of none xs) (first_of ys none) parts.1.0
              (last-InBounds s.nodes xs (some idx) parts.0)
              (first-InBounds s.nodes (some idx) ys parts.1.1),
          record {
            at_head = unlink_head s.head xs idx e ys l.at_head;
            at_tail = unlink_tail s.tail xs idx e ys l.at_tail;
            seg = remove-Seg l.distinct l.seg;
            distinct = Distinct-drop xs idx e ys l.distinct;
          },
        )
