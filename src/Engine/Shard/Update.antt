-- ===== src/Engine/Shard/Update.antt =====
-- A write to the payload of one node, its key and its links left alone, keeps a shard well formed.
use hybird_kv.Prelude.{
  ℕ, ◌≡◌, ◌≢◌, refl, sym, ◌∙◌, ap, Option, none, some, [], ◌∷◌, ◌++◌, arith, Bytes, modify, slot,
  slot-modify, length-append, length-modify,
}
use hybird_kv.Engine.HashMap.{HashMap}
use hybird_kv.Engine.Node.{Node}
use hybird_kv.Engine.Shard.{ShardInner}
use hybird_kv.Engine.Shard.Links.{
  Payload, Items, with_links, Absent, Distinct, Seg, Seg-split, Seg-join, Seg-frame,
  first_of-append, last_of-append, slot-modify_self, slot-modify_ne,
}
use hybird_kv.Engine.Shard.Distinct.{Absent-before, Absent-behind}
use hybird_kv.Engine.Shard.Keys.{index_of, NoKey, UniqueKeys}
use hybird_kv.Engine.Shard.Wf.{IsWf, FreeSlots-frame}

module _ (i : ℕ) (e : Payload) (v : Bytes) (x : Option ℕ) (t n : ℕ) where
  -- The payload `e` with a new value, expiry, token and size.
  abbrev pub rewritten : Payload
  rewritten = record e { value = v; expires_at = x; ttl_token = t; size = n }

  Absent-rewritten :
      (j : ℕ) (xs ys : Items) → Absent j (xs ++ (i, rewritten) ∷ ys) → Absent j (xs ++ (i, e) ∷ ys)
  Absent-rewritten j [] ys a = a
  Absent-rewritten j (y ∷ xs) ys a = (a.0, Absent-rewritten j xs ys a.1)

  rewritten-Absent :
      (j : ℕ) (xs ys : Items) → Absent j (xs ++ (i, e) ∷ ys) → Absent j (xs ++ (i, rewritten) ∷ ys)
  rewritten-Absent j [] ys a = a
  rewritten-Absent j (y ∷ xs) ys a = (a.0, rewritten-Absent j xs ys a.1)

  rewritten-Distinct :
      (xs ys : Items) → Distinct (xs ++ (i, e) ∷ ys) → Distinct (xs ++ (i, rewritten) ∷ ys)
  rewritten-Distinct [] ys d = d
  rewritten-Distinct ((j, f) ∷ xs) ys d =
      (rewritten-Absent j xs ys d.0, rewritten-Distinct xs ys d.1)

  rewritten-NoKey :
      (k : Bytes) (xs ys : Items)
      → NoKey k (xs ++ (i, e) ∷ ys)
      → NoKey k (xs ++ (i, rewritten) ∷ ys)
  rewritten-NoKey k [] ys h = h
  rewritten-NoKey k (y ∷ xs) ys h = (h.0, rewritten-NoKey k xs ys h.1)

  rewritten-UniqueKeys :
      (xs ys : Items) → UniqueKeys (xs ++ (i, e) ∷ ys) → UniqueKeys (xs ++ (i, rewritten) ∷ ys)
  rewritten-UniqueKeys [] ys u = u
  rewritten-UniqueKeys ((j, f) ∷ xs) ys u =
      (rewritten-NoKey f.key xs ys u.0, rewritten-UniqueKeys xs ys u.1)

  index_of-rewritten :
      (k : Bytes) (xs ys : Items)
      → index_of k (xs ++ (i, e) ∷ ys) ≡ index_of k (xs ++ (i, rewritten) ∷ ys)
  index_of-rewritten k [] ys = refl
  index_of-rewritten k ((j, f) ∷ xs) ys = rw (index_of-rewritten k xs ys)

  module _ {Map : Type 0} ⦃m : HashMap Map⦄ (s : ShardInner Map) (xs ys : Items) (f : Node → Node)
      (acts : (p q : Option ℕ) → f (with_links e p q) ≡ with_links rewritten p q) where
    abbrev pub after_write : ShardInner Map
    after_write = record s { nodes = modify s.nodes i f }

    write-Seg :
        Distinct (xs ++ (i, e) ∷ ys)
        → Seg s.nodes none (xs ++ (i, e) ∷ ys) none
        → Seg after_write.nodes none (xs ++ (i, rewritten) ∷ ys) none
    write-Seg d g =
        let parts = Seg-split s.nodes none xs ((i, e) ∷ ys) none g in
        let same : (j : ℕ) → i ≢ j → slot after_write.nodes j ≡ slot s.nodes j =
          λ j ne. slot-modify_ne s.nodes i f j ne in
        Seg-join after_write.nodes none xs ((i, rewritten) ∷ ys) none
          (Seg-frame s.nodes after_write.nodes i same none xs (some i) (Absent-before xs i e ys d)
            parts.0)
          (
            slot-modify_self s.nodes i f _ parts.1.0 ∙ ap some (acts _ _),
            Seg-frame s.nodes after_write.nodes i same (some i) ys none (Absent-behind xs i e ys d)
                parts.1.1,
          )

    write_empty : (j : ℕ) → slot s.nodes j ≡ none → slot after_write.nodes j ≡ none
    write_empty j h = ground (arith, slot-modify s.nodes i f j)

    -- The list keeps its order, and the item has the new payload.
    pub write-IsWf : IsWf s (xs ++ (i, e) ∷ ys) → IsWf after_write (xs ++ (i, rewritten) ∷ ys)
    write-IsWf wf = record {
      links = record {
        at_head =
            wf.links.at_head
            ∙ first_of-append xs ((i, e) ∷ ys) none
            ∙ sym (first_of-append xs ((i, rewritten) ∷ ys) none);
        at_tail =
            wf.links.at_tail
            ∙ last_of-append none xs ((i, e) ∷ ys)
            ∙ sym (last_of-append none xs ((i, rewritten) ∷ ys));
        seg = write-Seg wf.links.distinct wf.links.seg;
        distinct = rewritten-Distinct xs ys wf.links.distinct;
      };
      empty_elsewhere = λ j a. write_empty j (wf.empty_elsewhere j (Absent-rewritten j xs ys a));
      unique = rewritten-UniqueKeys xs ys wf.unique;
      mapped = λ k. wf.mapped k ∙ index_of-rewritten k xs ys;
      free_slots =
          FreeSlots-frame s.nodes after_write.nodes s.free (length-modify s.nodes i f) write_empty
            wf.free_slots;
      count = omega (
        arith,
        wf.count,
        length-modify s.nodes i f,
        length-append xs ((i, e) ∷ ys),
        length-append xs ((i, rewritten) ∷ ys),
      );
    }
