-- ===== src/Server/Exact.antt =====
-- hkv-server/src/observation/exact.rs: `ExactHotnessEvaluator`, which counts the accesses of each
-- key in a list of events. Counters are 64-bit and wrap. The hash map is the library's.
use hybird_kv.Prelude.{
  ℕ, ◌+◌, ◌%◌, ◌<◌, ◌≡◌, refl, Option, none, some, Bool, true, false, List, [], ◌∷◌, Bytes,
  bytes_eq, bytes_eq_iff, Bool-cases, inl, inr, ap, subst, sym, if◌then◌else◌, arith, length,
}
use hybird_kv.Engine.Word.{word, add_word}
use hybird_kv.Server.Observe.{AccessClass, reading, writing, ObservationEvent}
pub mod Counter
pub mod Ranking
pub mod Order
mod Tests

-- `ExactHotKeyCounts`
pub record HotKeyCounts : Type 0 where
  pub total_accesses : ℕ
  pub read_accesses : ℕ
  pub write_accesses : ℕ

-- What is relied on of `HashMap<Vec<u8>, ExactHotKeyCounts>`.
pub record CountMap (Map : Type 0) : Type 0 where
  pub empty : Map
  pub get : Map → Bytes → Option HotKeyCounts
  pub insert : Map → Bytes → HotKeyCounts → Map
  pub get-empty : (k : Bytes) → get empty k ≡ none
  pub get-insert :
      (m : Map) (k : Bytes) (c : HotKeyCounts) (j : Bytes)
      → get (insert m k c) j ≡ (if bytes_eq k j then some c else get m j)

-- `or_default`
unfoldable pub or_default : Option HotKeyCounts → HotKeyCounts
or_default none = record { total_accesses = 0; read_accesses = 0; write_accesses = 0 }
or_default (some c) = c

-- the counts of a key, once more
unfoldable pub count_access : AccessClass → HotKeyCounts → HotKeyCounts
count_access reading c = record c {
  total_accesses = add_word c.total_accesses 1;
  read_accesses = add_word c.read_accesses 1;
}
count_access writing c = record c {
  total_accesses = add_word c.total_accesses 1;
  write_accesses = add_word c.write_accesses 1;
}

abbrev pub reads_in : AccessClass → ℕ
reads_in reading = 1
reads_in writing = 0

abbrev pub writes_in : AccessClass → ℕ
writes_in reading = 0
writes_in writing = 1

-- How many events of a list read a key, and how many write it.
unfoldable pub reads_of : Bytes → List ObservationEvent → ℕ
reads_of k [] = 0
reads_of k (e ∷ es) = (if bytes_eq e.key k then reads_in e.access else 0) + reads_of k es

unfoldable pub writes_of : Bytes → List ObservationEvent → ℕ
writes_of k [] = 0
writes_of k (e ∷ es) = (if bytes_eq e.key k then writes_in e.access else 0) + writes_of k es

module _ {Map : Type 0} ⦃m : CountMap Map⦄ where
  unfoldable pub record_event : Map → ObservationEvent → Map
  record_event per_key event =
      m.insert per_key event.key (count_access event.access (or_default (m.get per_key event.key)))

  -- the loop of `from_events`
  unfoldable pub record_events : Map → List ObservationEvent → Map
  record_events per_key [] = per_key
  record_events per_key (event ∷ events) = record_events (record_event per_key event) events

  unfoldable pub from_events : List ObservationEvent → Map
  from_events events = record_events m.empty events

  abbrev pub counts : Map → Bytes → HotKeyCounts
  counts per_key k = or_default (m.get per_key k)

-- The counts are `r` reads and `w` writes, and as many accesses, up to the wrap-around.
pub record Counts (c : HotKeyCounts) (r w : ℕ) : Type 0 where
  pub total : c.total_accesses ≡ (r + w) % word
  pub reads : c.read_accesses ≡ r % word
  pub writes : c.write_accesses ≡ w % word

more : (a n m : ℕ) → a ≡ n % word → m ≡ n + 1 → add_word a 1 ≡ m % word
unfolding add_word
more a n m h e = omega (arith, h, e)

count_access-Counts :
    (access : AccessClass) (c : HotKeyCounts) (r w : ℕ)
    → Counts c r w
    → Counts (count_access access c) (r + reads_in access) (w + writes_in access)
unfolding count_access
count_access-Counts reading c r w h = record {
  total = more c.total_accesses (r + w) _ h.total (omega arith);
  reads = more c.read_accesses r _ h.reads refl;
  writes = omega (arith, h.writes);
}
count_access-Counts writing c r w h = record {
  total = more c.total_accesses (r + w) _ h.total (omega arith);
  reads = omega (arith, h.reads);
  writes = more c.write_accesses w _ h.writes refl;
}

Counts-cong : {c : HotKeyCounts} {r r' w w' : ℕ} → r ≡ r' → w ≡ w' → Counts c r w → Counts c r' w'
Counts-cong {c = c} {r = r} {w' = w'} p q h =
    subst (λ i. Counts c i w') p (subst (λ i. Counts c r i) q h)

module _ {Map : Type 0} ⦃m : CountMap Map⦄ where
  record_event-same :
      (per_key : Map) (e : ObservationEvent) (k : Bytes) (r w : ℕ)
      → bytes_eq e.key k ≡ true
      → Counts (counts per_key k) r w
      → Counts (counts (record_event per_key e) k) (r + reads_in e.access) (w + writes_in e.access)
  unfolding record_event or_default
  record_event-same per_key e k r w same h =
      rw (m.get-insert per_key e.key (count_access e.access (counts per_key e.key)) k, same)
        (count_access-Counts e.access (counts per_key e.key) r w
          (subst (λ j. Counts (counts per_key j) r w) (sym ((bytes_eq_iff e.key k).0 same)) h))

  record_event-other :
      (per_key : Map) (e : ObservationEvent) (k : Bytes)
      → bytes_eq e.key k ≡ false
      → counts (record_event per_key e) k ≡ counts per_key k
  unfolding record_event
  record_event-other per_key e k other =
      rw (m.get-insert per_key e.key (count_access e.access (counts per_key e.key)) k, other) refl

  record_events-Counts :
      (es : List ObservationEvent) (per_key : Map) (k : Bytes) (r w : ℕ)
      → Counts (counts per_key k) r w
      → Counts (counts (record_events per_key es) k) (r + reads_of k es) (w + writes_of k es)
  unfolding record_events reads_of writes_of
  record_events-Counts [] per_key k r w h = Counts-cong (omega arith) (omega arith) h
  record_events-Counts (e ∷ es) per_key k r w h = elim (Bool-cases (bytes_eq e.key k)) [
    | inl same ↦ Counts-cong (rw same (omega arith)) (rw same (omega arith)) (
        record_events-Counts es (record_event per_key e) k (r + reads_in e.access)
          (w + writes_in e.access) (record_event-same per_key e k r w same h))
    | inr other ↦ Counts-cong (rw other (omega arith)) (rw other (omega arith)) (
        record_events-Counts es (record_event per_key e) k r w
          (rw (record_event-other per_key e k other) h))
  ]

module _ (Map : Type 0) ⦃m : CountMap Map⦄ where
  -- Once the events of a list are recorded in an empty evaluator, the counts of each key are
  -- the numbers of the events that read it, that write it, and of both, up to the wrap-around at
  -- 2^64.
  pub from_events-Counts :
      (es : List ObservationEvent) (k : Bytes)
      → Counts (counts (from_events ⦃m = m⦄ es) k) (reads_of k es) (writes_of k es)
  unfolding from_events or_default
  from_events-Counts es k = Counts-cong (omega arith) (omega arith) (
      record_events-Counts es m.empty k 0 0 (
        rw (m.get-empty k)
          (record { total = omega arith; reads = omega arith; writes = omega arith })))
