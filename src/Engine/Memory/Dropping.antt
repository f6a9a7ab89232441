-- ===== src/Engine/Memory/Dropping.antt =====
-- Taking one item out of a locked shard, with the byte accounting.
use hybird_kv.Prelude.{ℕ, ◌+◌, ◌≡◌, sym, ◌∙◌, ap, subst, [], ret, ◌%◌, ◌∷◌, ◌++◌, arith}
use hybird_kv.Engine.HashMap.{HashMap}
use hybird_kv.Engine.Word.{word, sub_word, sub_word-mod}
use hybird_kv.Engine.Heap.{Ascending}
use hybird_kv.Engine.Shard.{ShardInner}
use hybird_kv.Engine.Shard.Wf.{IsWf}
use hybird_kv.Engine.Shard.Links.{Payload, Items}
use hybird_kv.Engine.Shard.Remove.{after_remove_idx, remove_idx-IsWf, remove_idx-ret}
use hybird_kv.Engine.Memory.{Locked, remove_counted}
use hybird_kv.Engine.Memory.Contents.{
  IsConsistent, All, All-drop, All-item, All-snoc, HasSize, Scheduled, total, total-append,
}

module _ {Map : Type 0} ⦃m : HashMap Map⦄ (l : Locked Map) (xs : Items) (i : ℕ) (e : Payload)
    (ys : Items) where
  -- The locked shard after `remove_counted`.
  abbrev pub after_drop : Locked Map
  after_drop = record l {
    inner = after_remove_idx l.inner xs i e ys;
    used_bytes = sub_word l.used_bytes e.size;
  }

  module _ (other : ℕ) (c : IsConsistent l (xs ++ (i, e) ∷ ys) other) where
    pub remove_counted-ret : remove_counted l i ≡ ret after_drop
    unfolding remove_counted
    remove_counted-ret = rw (remove_idx-ret l.inner xs i e ys c.wf)

    -- The counter goes down by the size of the item, and the other items stay as they are.
    pub drop-IsConsistent : IsConsistent after_drop (xs ++ ys) other
    drop-IsConsistent = record {
      wf = remove_idx-IsWf l.inner xs i e ys c.wf;
      sized = All-drop HasSize xs (i, e) ys c.sized;
      used =
          ap (λ u. sub_word u e.size) (c.used ∙ ap (λ t. t % word) regroup)
          ∙ sub_word-mod (other + total (xs ++ ys)) e.size;
      scheduled = All-drop (Scheduled l.inner.ttl_heap) xs (i, e) ys c.scheduled;
      ascending = c.ascending;
    }
      where
        regroup : other + total (xs ++ (i, e) ∷ ys) ≡ other + total (xs ++ ys) + e.size
        regroup = omega (arith, total-append xs ys, total-append xs ((i, e) ∷ ys))

-- A read that moves an item to the end keeps the shard consistent.
pub moved-IsConsistent :
    {Map : Type 0} ⦃m : HashMap Map⦄ (l : Locked Map) (xs : Items) (i : ℕ) (e : Payload)
    (ys : Items) (other : ℕ)
    → IsConsistent l (xs ++ (i, e) ∷ ys) other
    → (s' : ShardInner Map) → IsWf s' ((xs ++ ys) ++ (i, e) ∷ [])
    → s'.ttl_heap ≡ l.inner.ttl_heap
    → IsConsistent (record l { inner = s' }) ((xs ++ ys) ++ (i, e) ∷ []) other
moved-IsConsistent l xs i e ys other c s' wf' heap = record {
  wf = wf';
  sized =
      All-snoc HasSize (xs ++ ys) (i, e) (All-drop HasSize xs (i, e) ys c.sized)
        (All-item HasSize xs (i, e) ys c.sized);
  used = c.used ∙ ap (λ t. (other + t) % word) regroup;
  scheduled =
      subst (λ h. All (Scheduled h) ((xs ++ ys) ++ (i, e) ∷ [])) (sym heap)
        (All-snoc (Scheduled l.inner.ttl_heap) (xs ++ ys) (i, e)
          (All-drop (Scheduled l.inner.ttl_heap) xs (i, e) ys c.scheduled)
          (All-item (Scheduled l.inner.ttl_heap) xs (i, e) ys c.scheduled));
  ascending = subst Ascending (sym heap) c.ascending;
}
  where
    regroup : total (xs ++ (i, e) ∷ ys) ≡ total ((xs ++ ys) ++ (i, e) ∷ [])
    regroup = omega (
      arith,
      total-append xs ys,
      total-append xs ((i, e) ∷ ys),
      total-append (xs ++ ys) ((i, e) ∷ []),
    )
