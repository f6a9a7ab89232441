-- ===== src/Engine/Memory/Scheduling.antt =====
-- New deadlines on a locked shard: `attach` and `schedule` keep it consistent.
use hybird_kv.Prelude.{
  ℕ, ◌+◌, ◌%◌, ◌≡◌, refl, ◌∙◌, ap, subst, [], ◌∷◌, ◌++◌, List, arith, Option, none, some, ret,
  slot-lt, modify_at-ret, modify,
}
use hybird_kv.Engine.HashMap.{HashMap}
use hybird_kv.Engine.Word.{word}
use hybird_kv.Engine.Node.{Node, ExpirationEntry, heap_push}
use hybird_kv.Engine.Heap.{Ascending, Ascending-push, In, In-push, In-push_self}
use hybird_kv.Engine.Shard.{ShardInner, modify_node, schedule_expiration}
use hybird_kv.Engine.Shard.Links.{Payload, Items}
use hybird_kv.Engine.Shard.Wf.{IsWf}
use hybird_kv.Engine.Shard.Remove.{item}
use hybird_kv.Engine.Shard.Update.{write-IsWf}
use hybird_kv.Engine.Memory.{Locked, attach, schedule}
use hybird_kv.Engine.Memory.Contents.{
  IsConsistent, All, All-split, All-join, All-snoc, All-map, HasSize, Scheduled, total,
  total-append,
}

-- The invariant of a shard does not speak of its heap.
pub IsWf-heap :
    {Map : Type 0} ⦃m : HashMap Map⦄ (s : ShardInner Map) (heap : List ExpirationEntry) (xs : Items)
    → IsWf s xs
    → IsWf (record s { ttl_heap = heap }) xs
IsWf-heap s heap xs wf = record {
  links = record {
    at_head = wf.links.at_head;
    at_tail = wf.links.at_tail;
    seg = wf.links.seg;
    distinct = wf.links.distinct;
  };
  empty_elsewhere = wf.empty_elsewhere;
  unique = wf.unique;
  mapped = wf.mapped;
  free_slots = wf.free_slots;
  count = wf.count;
}

Scheduled-push :
    (h : ExpirationEntry) (heap : List ExpirationEntry) (x : ℕ × Payload)
    → Scheduled heap x
    → Scheduled (heap_push h heap) x
Scheduled-push h heap x s = λ d e. In-push _ h heap (s d e)

-- The pushed entry is that of the item.
Scheduled-self :
    (i : ℕ) (e : Payload) (d : ℕ) (heap : List ExpirationEntry)
    → e.expires_at ≡ some d
    → Scheduled (heap_push (record { expires_at = d; idx = i; token = e.ttl_token }) heap) (i, e)
Scheduled-self i e d heap h = λ d' eq.
    let same : d ≡ d' = cc in
    subst
      (λ t.
        In (record { expires_at = t; idx = i; token = e.ttl_token })
          (heap_push (record { expires_at = d; idx = i; token = e.ttl_token }) heap))
      same (In-push_self (record { expires_at = d; idx = i; token = e.ttl_token }) heap)

module _ {Map : Type 0} ⦃m : HashMap Map⦄ (l : Locked Map) (zs : Items) (i : ℕ) (e : Payload)
    (other : ℕ) where
  -- `schedule` completes a shard whose last item has a deadline that the heap does not know.
  pub schedule-IsConsistent :
      (x : Option ℕ)
      → e.expires_at ≡ x
      → IsWf l.inner (zs ++ (i, e) ∷ [])
      → All HasSize (zs ++ (i, e) ∷ [])
      → l.used_bytes ≡ (other + total (zs ++ (i, e) ∷ [])) % word
      → All (Scheduled l.inner.ttl_heap) zs
      → Ascending l.inner.ttl_heap
      → IsConsistent (schedule l i x e.ttl_token) (zs ++ (i, e) ∷ []) other
  unfolding schedule schedule_expiration
  schedule-IsConsistent none eq wf sized used sch asc = record {
    wf = wf;
    sized = sized;
    used = used;
    scheduled = All-snoc (Scheduled l.inner.ttl_heap) zs (i, e) sch (λ d h. cc);
    ascending = asc;
  }
  schedule-IsConsistent (some d) eq wf sized used sch asc =
      let h : ExpirationEntry = record { expires_at = d; idx = i; token = e.ttl_token } in
      record {
        wf = IsWf-heap l.inner (heap_push h l.inner.ttl_heap) (zs ++ (i, e) ∷ []) wf;
        sized = sized;
        used = used;
        scheduled =
            All-snoc (Scheduled (heap_push h l.inner.ttl_heap)) zs (i, e)
              (All-map (Scheduled-push h l.inner.ttl_heap) zs sch)
              (Scheduled-self i e d l.inner.ttl_heap eq);
        ascending = Ascending-push h l.inner.ttl_heap asc;
      }

module _ {Map : Type 0} ⦃m : HashMap Map⦄ (l : Locked Map) (xs : Items) (i : ℕ) (e : Payload)
    (ys : Items) (d token : ℕ) where
  -- The payload with the new deadline.
  abbrev pub postponed : Payload
  postponed = record e { expires_at = some d; ttl_token = token }

  abbrev written : List (Option Node)
  written = modify l.inner.nodes i (λ n. record n { expires_at = some d; ttl_token = token })

  abbrev pub after_attach : Locked Map
  after_attach = record l {
    inner = record l.inner {
      nodes = written;
      ttl_heap = heap_push (record { expires_at = d; idx = i; token = token }) l.inner.ttl_heap;
    };
  }

  module _ (other : ℕ) (c : IsConsistent l (xs ++ (i, e) ∷ ys) other) where
    pub attach-ret : attach l i d token ≡ ret after_attach
    unfolding attach modify_node schedule_expiration
    attach-ret =
        rw (modify_at-ret l.inner.nodes i _ (slot-lt l.inner.nodes i (item l.inner xs i e ys c.wf)))

    -- `attach` keeps the order, and the heap knows the new deadline.
    pub attach-IsConsistent : IsConsistent after_attach (xs ++ (i, postponed) ∷ ys) other
    attach-IsConsistent =
        let h : ExpirationEntry = record { expires_at = d; idx = i; token = token } in
        let heap = heap_push h l.inner.ttl_heap in
        let sizes = All-split HasSize xs ((i, e) ∷ ys) c.sized in
        let sch = All-split (Scheduled l.inner.ttl_heap) xs ((i, e) ∷ ys) c.scheduled in
        record {
          wf =
              IsWf-heap (record l.inner { nodes = written }) heap (xs ++ (i, postponed) ∷ ys)
                (write-IsWf i e e.value (some d) token e.size l.inner xs ys
                  (λ n. record n { expires_at = some d; ttl_token = token }) (λ p q. refl) c.wf);
          sized = All-join HasSize xs ((i, postponed) ∷ ys) sizes.0 (sizes.1.0, sizes.1.1);
          used = c.used ∙ ap (λ t. (other + t) % word) regroup;
          scheduled =
              All-join (Scheduled heap) xs ((i, postponed) ∷ ys)
                (All-map (Scheduled-push h l.inner.ttl_heap) xs sch.0)
                (
                  Scheduled-self i postponed d l.inner.ttl_heap refl,
                  All-map (Scheduled-push h l.inner.ttl_heap) ys sch.1.1,
                );
          ascending = Ascending-push h l.inner.ttl_heap c.ascending;
        }
      where
        regroup : total (xs ++ (i, e) ∷ ys) ≡ total (xs ++ (i, postponed) ∷ ys)
        regroup =
            omega (arith, total-append xs ((i, e) ∷ ys), total-append xs ((i, postponed) ∷ ys))
