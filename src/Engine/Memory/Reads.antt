-- ===== src/Engine/Memory/Reads.antt =====
-- `get`, `delete` and `ttl` of a locked shard do what the cache does.
use hybird_kv.Prelude.{
  ℕ, ◌≡◌, refl, sym, ◌∙◌, ap, subst, ret, [], ◌∷◌, ◌++◌, arith, Option, none, some, true, false,
  Bytes, List, index-some, Bool-cases, inl, inr, if◌then◌else◌,
}
use hybird_kv.Engine.HashMap.{HashMap}
use hybird_kv.Engine.Node.{expired_by}
use hybird_kv.Engine.Shard.Links.{Payload, Items}
use hybird_kv.Engine.Shard.Remove.{item}
use hybird_kv.Engine.Shard.Touch.{touch-IsWf}
use hybird_kv.Engine.Memory.{Locked, get_locked, delete_locked, ttl_locked, ttl_status, missing}
use hybird_kv.Engine.Memory.Cache
use hybird_kv.Engine.Memory.Cache.{Entry, find, without, remaining}
use hybird_kv.Engine.Memory.Contents.{IsConsistent, Yields, view, view-append, entry_of}
use hybird_kv.Engine.Memory.View.{by_key, find-view, without-view, find-view_miss}
use hybird_kv.Engine.Memory.Dropping.{
  after_drop, remove_counted-ret, drop-IsConsistent, moved-IsConsistent,
}

-- The cases of the cache's operations.
module _ (now : ℕ) (k : Bytes) (es : List Entry) where
  get_miss : find k es ≡ none → Cache.get now k es ≡ (es, none)
  unfolding Cache.get
  get_miss h = ground arith

  get_expired :
      (e : Entry)
      → find k es ≡ some e
      → expired_by e.expires_at now ≡ true
      → Cache.get now k es ≡ (without k es, none)
  unfolding Cache.get
  get_expired e h x = ground arith

  get_live :
      (e : Entry)
      → find k es ≡ some e
      → expired_by e.expires_at now ≡ false
      → Cache.get now k es ≡ (without k es ++ e ∷ [], some e.value)
  unfolding Cache.get
  get_live e h x = ground arith

module _ {Map : Type 0} ⦃m : HashMap Map⦄ (now : ℕ) (l : Locked Map) (other : ℕ) where
  module _ (xs : Items) (i : ℕ) (e : Payload) (ys : Items)
      (c : IsConsistent l (xs ++ (i, e) ∷ ys) other) (at : m.get l.inner.map e.key ≡ some i) where
    get_hit : Yields (get_locked now e.key l) other (Cache.get now e.key (view (xs ++ (i, e) ∷ ys)))
    unfolding get_locked
    get_hit =
        let es = view (xs ++ (i, e) ∷ ys) in
        let found = find-view i e xs ys c.wf.unique in
        let dropped = without-view i e xs ys c.wf.unique in
        elim (Bool-cases (expired_by e.expires_at now)) [
          | inl old ↦ rw (get_expired now e.key es (entry_of e) found old) (record {
            state = after_drop l xs i e ys;
            items = xs ++ ys;
            returns =
                rw (at, get_locked)
                  (rw (index-some l.inner.nodes i _ (item l.inner xs i e ys c.wf))
                    (rw old (rw (remove_counted-ret l xs i e ys other c))));
            consistent = drop-IsConsistent l xs i e ys other c;
            viewed = sym dropped;
          })
          | inr live ↦
              let (s', returns, wf', heap) = touch-IsWf l.inner xs i e ys c.wf in
              rw (get_live now e.key es (entry_of e) found live) (record {
                state = record l { inner = s' };
                items = (xs ++ ys) ++ (i, e) ∷ [];
                returns =
                    rw (at, get_locked)
                      (rw (index-some l.inner.nodes i _ (item l.inner xs i e ys c.wf))
                        (rw live (rw returns)));
                consistent = moved-IsConsistent l xs i e ys other c s' wf' heap;
                viewed =
                    view-append (xs ++ ys) ((i, e) ∷ [])
                    ∙ ap (λ zs. zs ++ entry_of e ∷ []) (sym dropped);
              })
        ]

  -- `get` of a consistent shard does not panic, and is the cache's `get`.
  pub get_locked-refines :
      (key : Bytes) (xs : Items)
      → IsConsistent l xs other
      → Yields (get_locked now key l) other (Cache.get now key (view xs))
  unfolding get_locked
  get_locked-refines key xs c =
      by_key l.inner key xs (λ k zs. Yields (get_locked now k l) other (Cache.get now k (view zs)))
        c.wf
        (λ miss free. rw (get_miss now key (view xs) (find-view_miss key xs free)) (record {
          state = l;
          items = xs;
          returns = rw (miss, get_locked);
          consistent = c;
          viewed = refl;
        }))
        (λ before i e after at split.
          get_hit before i e after (subst (λ zs. IsConsistent l zs other) split c) at)

module _ (now : ℕ) (k : Bytes) (es : List Entry) where
  delete_miss : find k es ≡ none → Cache.delete now k es ≡ (es, false)
  unfolding Cache.delete
  delete_miss h = ground arith

  delete_hit :
      (e : Entry)
      → find k es ≡ some e
      → Cache.delete now k es ≡ (without k es, if expired_by e.expires_at now then false else true)
  unfolding Cache.delete
  delete_hit e h = ground arith

  ttl_miss : find k es ≡ none → Cache.ttl now k es ≡ (es, missing)
  unfolding Cache.ttl
  ttl_miss h = ground arith

  ttl_expired :
      (e : Entry)
      → find k es ≡ some e
      → expired_by e.expires_at now ≡ true
      → Cache.ttl now k es ≡ (without k es, missing)
  unfolding Cache.ttl
  ttl_expired e h x = ground arith

  ttl_live :
      (e : Entry)
      → find k es ≡ some e
      → expired_by e.expires_at now ≡ false
      → Cache.ttl now k es ≡ (es, remaining now e.expires_at)
  unfolding Cache.ttl
  ttl_live e h x = ground arith

module _ {Map : Type 0} ⦃m : HashMap Map⦄ (now : ℕ) (l : Locked Map) (other : ℕ) where
  module _ (xs : Items) (i : ℕ) (e : Payload) (ys : Items)
      (c : IsConsistent l (xs ++ (i, e) ∷ ys) other) (at : m.get l.inner.map e.key ≡ some i) where
    delete_at :
        Yields (delete_locked now e.key l) other (Cache.delete now e.key (view (xs ++ (i, e) ∷ ys)))
    unfolding delete_locked
    delete_at =
        rw
          (delete_hit now e.key (view (xs ++ (i, e) ∷ ys)) (entry_of e)
            (find-view i e xs ys c.wf.unique))
          (record {
            state = after_drop l xs i e ys;
            items = xs ++ ys;
            returns =
                rw (at, delete_locked)
                  (rw (index-some l.inner.nodes i _ (item l.inner xs i e ys c.wf))
                    (rw (remove_counted-ret l xs i e ys other c)));
            consistent = drop-IsConsistent l xs i e ys other c;
            viewed = sym (without-view i e xs ys c.wf.unique);
          })

    -- A deadline that has not passed is not before `now`, so the second test of `ttl` fails too.
    status-live :
        (d : Option ℕ) → expired_by d now ≡ false → ttl_status now d l i ≡ ret (l, remaining now d)
    unfolding ttl_status expired_by remaining
    status-live none h = refl
    status-live (some d) h = rw h

    ttl_at : Yields (ttl_locked now e.key l) other (Cache.ttl now e.key (view (xs ++ (i, e) ∷ ys)))
    unfolding ttl_locked
    ttl_at =
        let es = view (xs ++ (i, e) ∷ ys) in
        let found = find-view i e xs ys c.wf.unique in
        elim (Bool-cases (expired_by e.expires_at now)) [
          | inl old ↦ rw (ttl_expired now e.key es (entry_of e) found old) (record {
            state = after_drop l xs i e ys;
            items = xs ++ ys;
            returns =
                rw (at, ttl_locked)
                  (rw (index-some l.inner.nodes i _ (item l.inner xs i e ys c.wf))
                    (rw old (rw (remove_counted-ret l xs i e ys other c))));
            consistent = drop-IsConsistent l xs i e ys other c;
            viewed = sym (without-view i e xs ys c.wf.unique);
          })
          | inr live ↦ rw (ttl_live now e.key es (entry_of e) found live) (record {
            state = l;
            items = xs ++ (i, e) ∷ ys;
            returns =
                rw (at, ttl_locked)
                  (rw (index-some l.inner.nodes i _ (item l.inner xs i e ys c.wf))
                    (rw live (status-live e.expires_at live)));
            consistent = c;
            viewed = refl;
          })
        ]

  -- `delete` of a consistent shard does not panic, and is the cache's `delete`.
  pub delete_locked-refines :
      (key : Bytes) (xs : Items)
      → IsConsistent l xs other
      → Yields (delete_locked now key l) other (Cache.delete now key (view xs))
  unfolding delete_locked
  delete_locked-refines key xs c =
      by_key l.inner key xs
        (λ k zs. Yields (delete_locked now k l) other (Cache.delete now k (view zs))) c.wf
        (λ miss free. rw (delete_miss now key (view xs) (find-view_miss key xs free)) (record {
          state = l;
          items = xs;
          returns = rw (miss, delete_locked);
          consistent = c;
          viewed = refl;
        }))
        (λ before i e after at split.
          delete_at before i e after (subst (λ zs. IsConsistent l zs other) split c) at)

  -- `ttl` of a consistent shard does not panic, and is the cache's `ttl`.
  pub ttl_locked-refines :
      (key : Bytes) (xs : Items)
      → IsConsistent l xs other
      → Yields (ttl_locked now key l) other (Cache.ttl now key (view xs))
  unfolding ttl_locked
  ttl_locked-refines key xs c =
      by_key l.inner key xs (λ k zs. Yields (ttl_locked now k l) other (Cache.ttl now k (view zs)))
        c.wf
        (λ miss free. rw (ttl_miss now key (view xs) (find-view_miss key xs free)) (record {
          state = l;
          items = xs;
          returns = rw (miss, ttl_locked);
          consistent = c;
          viewed = refl;
        }))
        (λ before i e after at split.
          ttl_at before i e after (subst (λ zs. IsConsistent l zs other) split c) at)
