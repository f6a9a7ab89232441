-- ===== src/Engine/Shard/PushBack.antt =====
-- `lru_push_back` and `touch` on a linked shard: they do not panic, and they put an item last.
use hybird_kv.Prelude.{
  ℕ, ◌<◌, ◌≡◌, ◌≢◌, refl, sym, subst, ◌∙◌, Option, none, some, List, [], ◌∷◌, ◌++◌, ret,
  modify_at-ret, slot, slot-lt, modify, length, length-modify,
}
use hybird_kv.Engine.Node.{Node}
use hybird_kv.Engine.Shard.{ShardInner, lru_push_back}
use hybird_kv.Engine.Shard.Links.{
  Payload, Items, with_links, first_of, last_of, Absent, Distinct, Seg, relink_next, last_of-append,
  Seg-join, Seg-frame, Seg-relink_next, slot-modify_self, slot-modify_ne,
}
use hybird_kv.Engine.Shard.Distinct.{Distinct-snoc}
use hybird_kv.Engine.Shard.Linked.{
  length-relink_next, IsLinked, InBounds, Elsewhere, set_head, link_next-ret, slot-relink_next,
  last-Elsewhere, last-InBounds,
}

push_head :
    (h : Option ℕ) (xs : Items) (i : ℕ) (e : Payload)
    → h ≡ first_of xs none
    → set_head (last_of none xs) (some i) h ≡ first_of (xs ++ (i, e) ∷ []) none
push_head h [] i e p = refl
push_head h (x ∷ xs) i e p = p

push-Seg :
    (nodes : List (Option Node)) (idx : ℕ) (xs : Items) (e : Payload) (p q t : Option ℕ)
    → t ≡ last_of none xs
    → slot nodes idx ≡ some (with_links e p q)
    → Absent idx xs
    → Distinct xs
    → Seg nodes none xs none
    → Seg
        (relink_next t (some idx) (modify nodes idx (λ n. record n { prev = t; next = none })))
        none
        (xs ++ (idx, e) ∷ [])
        none
push-Seg nodes idx xs e p q t at_tail h a d g =
    let last = last_of none xs in
    let n1 = modify nodes idx (λ n. record n { prev = last; next = none }) in
    let x1 : Seg n1 none xs none =
      Seg-frame nodes n1 idx (λ j n. slot-modify_ne nodes idx _ j n) none xs none a g in
    rw at_tail (
      Seg-join (relink_next last (some idx) n1) none xs ((idx, e) ∷ []) none
        (Seg-relink_next n1 xs none (some idx) d x1)
        (
          slot-relink_next n1 last (some idx) idx (last-Elsewhere idx xs a)
              ∙ slot-modify_self nodes idx _ _ h,
          tt,
        ))

module _ {Map : Type 0} (s : ShardInner Map) (idx : ℕ) where
  abbrev detached : List (Option Node)
  detached = modify s.nodes idx (λ n. record n { prev = s.tail; next = none })

  abbrev pub after_push : ShardInner Map
  after_push = record s {
    nodes = relink_next s.tail (some idx) detached;
    head = set_head s.tail (some idx) s.head;
    tail = some idx;
  }

  pub length-after_push : length after_push.nodes ≡ length s.nodes
  length-after_push = length-relink_next s.tail (some idx) detached ∙ length-modify s.nodes idx _

  lru_push_back-ret :
      idx < length s.nodes → InBounds s.tail (length s.nodes) → lru_push_back s idx ≡ ret after_push
  unfolding lru_push_back
  lru_push_back-ret b bt =
      let s1 : ShardInner Map = record s { nodes = detached } in
      let bt' : InBounds s.tail (length detached) =
        subst (InBounds s.tail) (sym (length-modify s.nodes idx _)) bt in
      rw (modify_at-ret s.nodes idx _ b) (rw (link_next-ret s1 s.tail (some idx) bt'))

  module _ (xs : Items) where
    -- `lru_push_back` of a detached slot returns, and the slot is the last item.
    pub lru_push_back-IsLinked :
        (e : Payload) {p q : Option ℕ}
        → slot s.nodes idx ≡ some (with_links e p q)
        → Absent idx xs
        → IsLinked s xs
        → (lru_push_back s idx ≡ ret after_push) × IsLinked after_push (xs ++ (idx, e) ∷ [])
    lru_push_back-IsLinked e {p} {q} h a l = (
      lru_push_back-ret (slot-lt s.nodes idx {v = with_links e p q} h)
          (rw l.at_tail (last-InBounds s.nodes xs none l.seg)),
      record {
        at_head =
            subst (λ t. set_head t (some idx) s.head ≡ first_of (xs ++ (idx, e) ∷ []) none)
              (sym l.at_tail) (push_head s.head xs idx e l.at_head);
        at_tail = sym (last_of-append none xs ((idx, e) ∷ []));
        seg = push-Seg s.nodes idx xs e p q s.tail l.at_tail h a l.distinct l.seg;
        distinct = Distinct-snoc xs idx e l.distinct a;
      },
    )

    -- No slot outside the list changes.
    pub slot-push_ne :
        (j : ℕ) → Absent j xs → idx ≢ j → IsLinked s xs → slot after_push.nodes j ≡ slot s.nodes j
    slot-push_ne j a n l =
        slot-relink_next detached s.tail (some idx) j
          (subst (λ t. Elsewhere t j) (sym l.at_tail) (last-Elsewhere j xs a))
        ∙ slot-modify_ne s.nodes idx _ j n
