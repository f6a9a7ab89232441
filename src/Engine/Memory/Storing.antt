-- ===== src/Engine/Memory/Storing.antt =====
-- The parts of `write_value` on a locked shard: dropping an expired entry, storing under a new key,
-- and storing under a key that has a node.
use hybird_kv.Prelude.{
  ℕ, ◌+◌, ◌%◌, ◌≡◌, refl, sym, ◌∙◌, ap, subst, ret, [], ◌∷◌, ◌++◌, arith, Option, none, some, Bytes,
  List, index-some, modify_at-ret, slot-lt, Bool-cases, inl, inr, Outcome, length,
}
use hybird_kv.Engine.HashMap.{HashMap}
use hybird_kv.Engine.Word.{word, add_word, sub_word, add_word-mod}
use hybird_kv.Engine.Shard.Update.{rewritten, after_write, write-IsWf}
use hybird_kv.Engine.Shard.Touch.{touch-IsWf}
use hybird_kv.Engine.Shard.{modify_node}
use hybird_kv.Engine.Node.{Node, expired_by}
use hybird_kv.Engine.Heap.{Ascending}
use hybird_kv.Engine.Shard.{ShardInner}
use hybird_kv.Engine.Shard.Links.{Payload, Items}
use hybird_kv.Engine.Shard.Wf.{IsWf}
use hybird_kv.Engine.Shard.Keys.{NoKey, NoKey-others}
use hybird_kv.Engine.Shard.Remove.{item}
use hybird_kv.Engine.Shard.Insert.{fresh, insert_new-IsWf}
use hybird_kv.Engine.Memory.{Locked, drop_expired, write_new, overwrite, schedule, resize}
use hybird_kv.Engine.Memory.Cache.{Entry, without}
use hybird_kv.Engine.Memory.Contents.{
  IsConsistent, All, All-drop, All-snoc, HasSize, Scheduled, total, total-append, view, view-append,
}
use hybird_kv.Engine.Memory.View.{by_key, without-view, without-view_miss}
use hybird_kv.Engine.Memory.Dropping.{after_drop, remove_counted-ret, drop-IsConsistent}
use hybird_kv.Engine.Memory.Scheduling.{
  postponed, after_attach, attach-ret, attach-IsConsistent, schedule-IsConsistent,
}

-- The step returns, and leaves a consistent shard with the entries `es`.
pub record Leaves {Map : Type 0} ⦃m : HashMap Map⦄ (step : Outcome (Locked Map)) (other : ℕ)
    (es : List Entry) : Type 0 where
  pub state : Locked Map
  pub items : Items
  pub returns : step ≡ ret state
  pub consistent : IsConsistent state items other
  pub viewed : view items ≡ es

-- The step returns, and leaves a consistent shard that differs at most in an entry of key `k`.
pub record Clears {Map : Type 0} ⦃m : HashMap Map⦄ (step : Outcome (Locked Map)) (other : ℕ)
    (k : Bytes) (es : List Entry) : Type 0 where
  pub state : Locked Map
  pub items : Items
  pub returns : step ≡ ret state
  pub consistent : IsConsistent state items other
  pub same : without k (view items) ≡ without k es

module _ {Map : Type 0} ⦃m : HashMap Map⦄ (l : Locked Map) (other : ℕ) where
  drop_at :
      (now : ℕ) (xs : Items) (i : ℕ) (e : Payload) (ys : Items)
      → IsConsistent l (xs ++ (i, e) ∷ ys) other
      → m.get l.inner.map e.key ≡ some i
      → Clears (drop_expired l e.key now) other e.key (view (xs ++ (i, e) ∷ ys))
  unfolding drop_expired
  drop_at now xs i e ys c at = elim (Bool-cases (expired_by e.expires_at now)) [
    | inl old ↦ record {
      state = after_drop l xs i e ys;
      items = xs ++ ys;
      returns =
          rw (at, drop_expired)
            (rw (index-some l.inner.nodes i _ (item l.inner xs i e ys c.wf))
              (rw old (remove_counted-ret l xs i e ys other c)));
      consistent = drop-IsConsistent l xs i e ys other c;
      same =
          without-view_miss e.key (xs ++ ys) (NoKey-others xs i e ys c.wf.unique)
          ∙ sym (without-view i e xs ys c.wf.unique);
    }
    | inr live ↦ record {
      state = l;
      items = xs ++ (i, e) ∷ ys;
      returns =
          rw (at, drop_expired)
            (rw (index-some l.inner.nodes i _ (item l.inner xs i e ys c.wf)) (rw live));
      consistent = c;
      same = refl;
    }
  ]

  pub drop_expired-Clears :
      (now : ℕ) (key : Bytes) (xs : Items)
      → IsConsistent l xs other
      → Clears (drop_expired l key now) other key (view xs)
  unfolding drop_expired
  drop_expired-Clears now key xs c =
      by_key l.inner key xs (λ k zs. Clears (drop_expired l k now) other k (view zs)) c.wf
        (λ miss free. record {
          state = l;
          items = xs;
          returns = rw (miss, drop_expired);
          consistent = c;
          same = refl;
        })
        (λ before i e after at split.
          drop_at now before i e after (subst (λ zs. IsConsistent l zs other) split c) at)

  module _ (key value : Bytes) (size : ℕ) (xs : Items) where
    inserted-IsConsistent :
        size ≡ length key + length value
        → IsConsistent l xs other
        → (counter idx : ℕ) (s' : ShardInner Map) → IsWf s' (xs ++ (idx, fresh key value size) ∷ [])
        → s'.ttl_heap ≡ l.inner.ttl_heap
        → IsConsistent
            (record l {
              inner = s';
              used_bytes = add_word l.used_bytes size;
              next_ttl_token = counter;
            })
            (xs ++ (idx, fresh key value size) ∷ [])
            other
    inserted-IsConsistent n c counter idx s' wf' heap = record {
      wf = wf';
      sized = All-snoc HasSize xs (idx, fresh key value size) c.sized n;
      used =
          ap (λ u. add_word u size) c.used
          ∙ add_word-mod (other + total xs) size
          ∙ ap (λ t. t % word) regroup;
      scheduled =
          subst (λ h. All (Scheduled h) (xs ++ (idx, fresh key value size) ∷ [])) (sym heap)
            (All-snoc (Scheduled l.inner.ttl_heap) xs (idx, fresh key value size) c.scheduled
              (λ d h. cc));
      ascending = subst Ascending (sym heap) c.ascending;
    }
      where
        regroup : other + total xs + size ≡ other + total (xs ++ (idx, fresh key value size) ∷ [])
        regroup = omega (arith, total-append xs ((idx, fresh key value size) ∷ []))

    -- A key that is not there gets a new item, with its deadline.
    pub write_new-Leaves :
        (x : Option ℕ)
        → size ≡ length key + length value
        → NoKey key xs
        → IsConsistent l xs other
        → Leaves
            (write_new l key value size x)
            other
            (view xs ++ record { key = key; value = value; expires_at = x } ∷ [])
    unfolding write_new
    write_new-Leaves none n free c =
        let (s', idx, returns, wf', heap) = insert_new-IsWf l.inner xs c.wf key value size free in
        record {
          state = record l { inner = s'; used_bytes = add_word l.used_bytes size };
          items = xs ++ (idx, fresh key value size) ∷ [];
          returns = rw returns;
          consistent = inserted-IsConsistent n c l.next_ttl_token idx s' wf' heap;
          viewed = view-append xs ((idx, fresh key value size) ∷ []);
        }
    write_new-Leaves (some d) n free c =
        let (s', idx, returns, wf', heap) = insert_new-IsWf l.inner xs c.wf key value size free in
        let e = fresh key value size in
        let token = l.next_ttl_token in
        let l1 : Locked Map = record l {
          inner = s';
          used_bytes = add_word l.used_bytes size;
          next_ttl_token = add_word l.next_ttl_token 1;
        } in
        let c1 = inserted-IsConsistent n c (add_word l.next_ttl_token 1) idx s' wf' heap in
        record {
          state = after_attach l1 xs idx e [] d token;
          items = xs ++ (idx, postponed l1 xs idx e [] d token) ∷ [];
          returns = rw returns (attach-ret l1 xs idx e [] d token other c1);
          consistent = attach-IsConsistent l1 xs idx e [] d token other c1;
          viewed = view-append xs ((idx, postponed l1 xs idx e [] d token) ∷ []);
        }

  module _ (xs : Items) (i : ℕ) (e : Payload) (ys : Items) where
    resize-mod : (u n : ℕ) → resize ((u + e.size) % word) e.size n ≡ (u + n) % word
    unfolding resize add_word sub_word
    resize-mod u n = ground arith

    -- A key that has an item gets the new value and deadline, and is the most recent one.
    pub overwrite-Leaves :
        (value : Bytes) (n : ℕ) (x : Option ℕ)
        → n ≡ length e.key + length value
        → IsConsistent l (xs ++ (i, e) ∷ ys) other
        → Leaves
            (overwrite l i value n x)
            other
            (view (xs ++ ys) ++ record { key = e.key; value = value; expires_at = x } ∷ [])
    unfolding overwrite modify_node
    overwrite-Leaves value n x size c =
        let token = l.next_ttl_token in
        let f : Node → Node =
          λ n'. record n' { value = value; size = n; expires_at = x; ttl_token = token } in
        let e' = rewritten i e value x token n in
        let written = after_write i e value x token n l.inner xs ys f (λ p q. refl) in
        let wf1 = write-IsWf i e value x token n l.inner xs ys f (λ p q. refl) c.wf in
        let (s', touched, wf', heap) = touch-IsWf written xs i e' ys wf1 in
        let l2 : Locked Map = record l {
          inner = s';
          used_bytes = resize l.used_bytes e.size n;
          next_ttl_token = add_word l.next_ttl_token 1;
        } in
        let here = item l.inner xs i e ys c.wf in
        record {
          state = schedule l2 i x token;
          items = (xs ++ ys) ++ (i, e') ∷ [];
          returns =
              rw (index-some l.inner.nodes i _ here)
                (rw (modify_at-ret l.inner.nodes i f (slot-lt l.inner.nodes i here)) (rw touched));
          consistent =
              schedule-IsConsistent l2 (xs ++ ys) i e' other x refl wf'
                (All-snoc HasSize (xs ++ ys) (i, e') (All-drop HasSize xs (i, e) ys c.sized) size)
                (ap (λ u. resize u e.size n) (c.used ∙ ap (λ t. t % word) before)
                  ∙ resize-mod (other + total (xs ++ ys)) n
                  ∙ ap (λ t. t % word) (after e' refl))
                (subst (λ h. All (Scheduled h) (xs ++ ys)) (sym heap)
                  (All-drop (Scheduled l.inner.ttl_heap) xs (i, e) ys c.scheduled))
                (subst Ascending (sym heap) c.ascending);
          viewed = view-append (xs ++ ys) ((i, e') ∷ []);
        }
      where
        before : other + total (xs ++ (i, e) ∷ ys) ≡ other + total (xs ++ ys) + e.size
        before = omega (arith, total-append xs ys, total-append xs ((i, e) ∷ ys))

        after :
            (e' : Payload)
            → e'.size ≡ n
            → other + total (xs ++ ys) + n ≡ other + total ((xs ++ ys) ++ (i, e') ∷ [])
        after e' h = omega (arith, total-append (xs ++ ys) ((i, e') ∷ []))
