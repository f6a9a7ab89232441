-- ===== src/Engine/Memory/Writes.antt =====
-- `write_value` and `expire` of a locked shard do what the cache does.
use hybird_kv.Prelude.{
  ℕ, ◌+◌, ◌≡◌, refl, sym, ◌∙◌, ap, subst, ret, [], ◌∷◌, ◌++◌, arith, Option, none, some, true,
  false, Bytes, List, index-some, Bool-cases, inl, inr, length,
}
use hybird_kv.Engine.HashMap.{HashMap}
use hybird_kv.Engine.Node.{expired_by}
use hybird_kv.Engine.Word.{add_word}
use hybird_kv.Engine.Shard.Links.{Payload, Items}
use hybird_kv.Engine.Shard.Remove.{item}
use hybird_kv.Engine.Memory.{Locked, deadline_of, deadline_from, store, write_locked, expire_locked}
use hybird_kv.Engine.Memory.Cache
use hybird_kv.Engine.Memory.Cache.{Entry, find, without, with_deadline}
use hybird_kv.Engine.Memory.Contents.{IsConsistent, Yields, view, entry_of}
use hybird_kv.Engine.Memory.View.{
  by_key, find-view, without-view, with_deadline-view, without-view_miss, find-view_miss,
}
use hybird_kv.Engine.Memory.Dropping.{after_drop, remove_counted-ret, drop-IsConsistent}
use hybird_kv.Engine.Memory.Scheduling.{postponed, after_attach, attach-ret, attach-IsConsistent}
use hybird_kv.Engine.Memory.Storing.{
  Leaves, drop_expired-Clears, write_new-Leaves, overwrite-Leaves,
}

module _ {Map : Type 0} ⦃m : HashMap Map⦄ (other : ℕ) where
  store-Leaves :
      (l : Locked Map) (key value : Bytes) (x : Option ℕ) (xs : Items)
      → IsConsistent l xs other
      → Leaves
          (store l key value (length key + length value) x)
          other
          (Cache.write key value x (view xs))
  unfolding store Cache.write
  store-Leaves l key value x xs c =
      by_key l.inner key xs
        (λ k zs.
          Leaves (store l k value (length k + length value) x) other
            (Cache.write k value x (view zs)))
        c.wf
        (λ miss free.
          let w = write_new-Leaves l other key value (length key + length value) xs x refl free c in
          record {
            state = w.state;
            items = w.items;
            returns = rw (miss, store) w.returns;
            consistent = w.consistent;
            viewed =
                w.viewed
                ∙ ap (λ es. es ++ record { key = key; value = value; expires_at = x } ∷ [])
                    (sym (without-view_miss key xs free));
          })
        (λ before i e after at split.
          let c' = subst (λ zs. IsConsistent l zs other) split c in
          let w =
            overwrite-Leaves l other before i e after value (length e.key + length value) x refl
              c' in
          record {
            state = w.state;
            items = w.items;
            returns = rw (at, store) w.returns;
            consistent = w.consistent;
            viewed =
                w.viewed
                ∙ ap (λ es. es ++ record { key = e.key; value = value; expires_at = x } ∷ [])
                    (sym (without-view i e before after c'.wf.unique));
          })

  -- `write_value` of a consistent shard, with a deadline that the platform can represent, does not
  -- panic, and is the cache's `write`.
  pub write_locked-refines :
      (latest now : ℕ) (key value : Bytes) (ttl x : Option ℕ) (l : Locked Map) (xs : Items)
      → deadline_of latest now ttl ≡ ret x
      → IsConsistent l xs other
      → Leaves (write_locked latest now key value ttl l) other (Cache.write key value x (view xs))
  unfolding write_locked Cache.write
  write_locked-refines latest now key value ttl x l xs h c =
      let d = drop_expired-Clears l other now key xs c in
      let w = store-Leaves d.state key value x d.items d.consistent in
      record {
        state = w.state;
        items = w.items;
        returns = rw h (rw d.returns w.returns);
        consistent = w.consistent;
        viewed =
            w.viewed
            ∙ ap (λ es. es ++ record { key = key; value = value; expires_at = x } ∷ []) d.same;
      }

module _ (now : ℕ) (k : Bytes) (d : ℕ) (es : List Entry) where
  expire_miss : find k es ≡ none → Cache.expire now k d es ≡ (es, false)
  unfolding Cache.expire
  expire_miss h = ground arith

  expire_expired :
      (e : Entry)
      → find k es ≡ some e
      → expired_by e.expires_at now ≡ true
      → Cache.expire now k d es ≡ (without k es, false)
  unfolding Cache.expire
  expire_expired e h x = ground arith

  expire_live :
      (e : Entry)
      → find k es ≡ some e
      → expired_by e.expires_at now ≡ false
      → Cache.expire now k d es ≡ (with_deadline k d es, true)
  unfolding Cache.expire
  expire_live e h x = ground arith

module _ {Map : Type 0} ⦃m : HashMap Map⦄ (latest now ttl d : ℕ) (l : Locked Map) (other : ℕ) where
  module _ (xs : Items) (i : ℕ) (e : Payload) (ys : Items)
      (c : IsConsistent l (xs ++ (i, e) ∷ ys) other) (at : m.get l.inner.map e.key ≡ some i) where
    token_taken :
        IsConsistent
          (record l { next_ttl_token = add_word l.next_ttl_token 1 })
          (xs ++ (i, e) ∷ ys)
          other
    token_taken = record {
      wf = c.wf;
      sized = c.sized;
      used = c.used;
      scheduled = c.scheduled;
      ascending = c.ascending;
    }

    expire_at :
        deadline_from latest now ttl ≡ ret d
        → Yields
            (expire_locked latest now e.key ttl l)
            other
            (Cache.expire now e.key d (view (xs ++ (i, e) ∷ ys)))
    unfolding expire_locked
    expire_at h =
        let es = view (xs ++ (i, e) ∷ ys) in
        let found = find-view i e xs ys c.wf.unique in
        let l1 : Locked Map = record l { next_ttl_token = add_word l.next_ttl_token 1 } in
        let token = l.next_ttl_token in
        elim (Bool-cases (expired_by e.expires_at now)) [
          | inl old ↦ rw (expire_expired now e.key d es (entry_of e) found old) (record {
            state = after_drop l xs i e ys;
            items = xs ++ ys;
            returns =
                rw (at, expire_locked)
                  (rw (index-some l.inner.nodes i _ (item l.inner xs i e ys c.wf))
                    (rw old (rw (remove_counted-ret l xs i e ys other c))));
            consistent = drop-IsConsistent l xs i e ys other c;
            viewed = sym (without-view i e xs ys c.wf.unique);
          })
          | inr live ↦ rw (expire_live now e.key d es (entry_of e) found live) (record {
            state = after_attach l1 xs i e ys d token;
            items = xs ++ (i, postponed l1 xs i e ys d token) ∷ ys;
            returns =
                rw (at, expire_locked)
                  (rw (index-some l.inner.nodes i _ (item l.inner xs i e ys c.wf))
                    (rw live (rw h (rw (attach-ret l1 xs i e ys d token other token_taken)))));
            consistent = attach-IsConsistent l1 xs i e ys d token other token_taken;
            viewed = sym (with_deadline-view i e xs ys c.wf.unique d token);
          })
        ]

  -- `expire` of a consistent shard, with a deadline that the platform can represent, does not
  -- panic, and is the cache's `expire`.
  pub expire_locked-refines :
      (key : Bytes) (xs : Items)
      → deadline_from latest now ttl ≡ ret d
      → IsConsistent l xs other
      → Yields (expire_locked latest now key ttl l) other (Cache.expire now key d (view xs))
  unfolding expire_locked
  expire_locked-refines key xs h c =
      by_key l.inner key xs
        (λ k zs. Yields (expire_locked latest now k ttl l) other (Cache.expire now k d (view zs)))
        c.wf
        (λ miss free. rw (expire_miss now key d (view xs) (find-view_miss key xs free)) (record {
          state = l;
          items = xs;
          returns = rw (miss, expire_locked);
          consistent = c;
          viewed = refl;
        }))
        (λ before i e after at split.
          expire_at before i e after (subst (λ zs. IsConsistent l zs other) split c) at h)
