-- ===== src/Engine/Memory/View.antt =====
-- The cache that the items stand for: where a key is found, and what dropping and moving its item
-- does to the entries.
use hybird_kv.Prelude.{
  ℕ, ◌≡◌, refl, sym, ◌∙◌, ap, subst, none, some, [], ◌∷◌, ◌++◌, Bytes, Option-cases, inl, inr,
}
use hybird_kv.Engine.HashMap.{HashMap}
use hybird_kv.Engine.Shard.Links.{Payload, Items}
use hybird_kv.Engine.Shard.Keys.{
  index_of, index_of-split, NoKey, NoKey-index_of, NoKey-split, NoKey-others, UniqueKeys,
  bytes_eq_refl,
}
use hybird_kv.Engine.Shard.{ShardInner}
use hybird_kv.Engine.Shard.Wf.{IsWf}
use hybird_kv.Engine.Memory.Contents.{entry_of, view}
use hybird_kv.Engine.Memory.Cache.{find, without, with_deadline}

pub find-view_miss : (k : Bytes) (xs : Items) → NoKey k xs → find k (view xs) ≡ none
unfolding find
find-view_miss k [] n = refl
find-view_miss k ((j, f) ∷ xs) n = rw n.0 (find-view_miss k xs n.1)

pub without-view_miss : (k : Bytes) (xs : Items) → NoKey k xs → without k (view xs) ≡ view xs
unfolding without
without-view_miss k [] n = refl
without-view_miss k ((j, f) ∷ xs) n = rw n.0 (ap (◌∷◌ (entry_of f)) (without-view_miss k xs n.1))

module _ (i : ℕ) (e : Payload) where
  find-view_at :
      (xs ys : Items) → NoKey e.key xs → find e.key (view (xs ++ (i, e) ∷ ys)) ≡ some (entry_of e)
  unfolding find
  find-view_at [] ys n = rw (bytes_eq_refl e.key)
  find-view_at ((j, f) ∷ xs) ys n = rw n.0 (find-view_at xs ys n.1)

  without-view_at :
      (xs ys : Items) → NoKey e.key xs → without e.key (view (xs ++ (i, e) ∷ ys)) ≡ view (xs ++ ys)
  unfolding without
  without-view_at [] ys n = rw (bytes_eq_refl e.key)
  without-view_at ((j, f) ∷ xs) ys n = rw n.0 (ap (◌∷◌ (entry_of f)) (without-view_at xs ys n.1))

  with_deadline-view_at :
      (d t : ℕ) (xs ys : Items)
      → NoKey e.key xs
      → with_deadline e.key d (view (xs ++ (i, e) ∷ ys))
        ≡ view (xs ++ (i, record e { expires_at = some d; ttl_token = t }) ∷ ys)
  unfolding with_deadline
  with_deadline-view_at d t [] ys n = rw (bytes_eq_refl e.key)
  with_deadline-view_at d t ((j, f) ∷ xs) ys n =
      rw n.0 (ap (◌∷◌ (entry_of f)) (with_deadline-view_at d t xs ys n.1))

  module _ (xs ys : Items) (u : UniqueKeys (xs ++ (i, e) ∷ ys)) where
    before_free : NoKey e.key xs
    before_free = (NoKey-split e.key xs ys (NoKey-others xs i e ys u)).0

    -- The entry of an item is found by its key.
    pub find-view : find e.key (view (xs ++ (i, e) ∷ ys)) ≡ some (entry_of e)
    find-view = find-view_at xs ys before_free

    -- Dropping the item is dropping the entry.
    pub without-view : without e.key (view (xs ++ (i, e) ∷ ys)) ≡ view (xs ++ ys)
    without-view = without-view_at xs ys before_free

    -- A new deadline of the item is one of the entry.
    pub with_deadline-view :
        (d t : ℕ)
        → with_deadline e.key d (view (xs ++ (i, e) ∷ ys))
          ≡ view (xs ++ (i, record e { expires_at = some d; ttl_token = t }) ∷ ys)
    with_deadline-view d t = with_deadline-view_at d t xs ys before_free

-- Where a key is: nowhere, or at one item.
pub data Located {Map : Type 0} ⦃m : HashMap Map⦄ (s : ShardInner Map) (k : Bytes) (xs : Items)
    : Type 0 where
  nowhere : m.get s.map k ≡ none → NoKey k xs → Located s k xs
  at_item :
      (before : Items) (i : ℕ) (e : Payload) (after : Items)
      → m.get s.map k ≡ some i
      → xs ≡ before ++ (i, e) ∷ after
      → k ≡ e.key
      → Located s k xs

pub locate :
    {Map : Type 0} ⦃m : HashMap Map⦄ (s : ShardInner Map) (k : Bytes) (xs : Items)
    → IsWf s xs
    → Located s k xs
locate s k xs wf = elim (Option-cases (index_of k xs)) [
  | inl miss ↦ nowhere (wf.mapped k ∙ miss) (NoKey-index_of k xs miss)
  | inr (i, hit) ↦
      let (before, e, after, split, key) = index_of-split k xs i hit in
      at_item before i e after (wf.mapped k ∙ hit) split (sym key)
]

-- To prove a statement on a key, prove it where the key is nowhere and at the item that has it.
pub by_key :
    {Map : Type 0} ⦃m : HashMap Map⦄ (s : ShardInner Map) (k : Bytes) (xs : Items)
    (Q : Bytes → Items → Type 0)
    → IsWf s xs
    → (m.get s.map k ≡ none → NoKey k xs → Q k xs)
    → ((before : Items) (i : ℕ) (e : Payload) (after : Items)
        → m.get s.map e.key ≡ some i
        → xs ≡ before ++ (i, e) ∷ after
        → Q e.key (before ++ (i, e) ∷ after))
    → Q k xs
by_key ⦃m⦄ s k xs Q wf miss hit = elim (locate s k xs wf) [
  | nowhere absent free ↦ miss absent free
  | at_item before i e after at split same ↦
      subst (λ k. Q k xs) (sym same)
        (subst (Q e.key) (sym split)
          (hit before i e after (ap (m.get s.map) (sym same) ∙ at) split))
]
