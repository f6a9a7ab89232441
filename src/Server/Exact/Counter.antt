-- ===== src/Server/Exact/Counter.antt =====
-- hkv-server/src/observation/exact.rs: `ExactObservationCounter`, one account of all events.
use hybird_kv.Prelude.{ℕ, suc, ◌+◌, ◌%◌, ◌≡◌, Option, none, some, List, [], ◌∷◌, arith}
use hybird_kv.Engine.Word.{word, add_word}
use hybird_kv.Server.Observe.{AccessClass, reading, writing, ObservationEvent}

-- `ExactCounterSnapshot`
pub record Snapshot : Type 0 where
  pub total_events : ℕ
  pub reads : ℕ
  pub writes : ℕ
  pub known_value_bytes : ℕ

unfoldable pub new_snapshot : Snapshot
new_snapshot = record { total_events = 0; reads = 0; writes = 0; known_value_bytes = 0 }

unfoldable pub count_class : AccessClass → Snapshot → Snapshot
count_class reading s = record s { reads = add_word s.reads 1 }
count_class writing s = record s { writes = add_word s.writes 1 }

unfoldable pub count_bytes : Option ℕ → Snapshot → Snapshot
count_bytes none s = s
count_bytes (some value_size) s = record s {
  known_value_bytes = add_word s.known_value_bytes value_size;
}

unfoldable pub record_observation : Snapshot → ObservationEvent → Snapshot
unfolding count_bytes count_class
record_observation s event =
    count_bytes event.value_size
      (count_class event.access (record s { total_events = add_word s.total_events 1 }))

abbrev pub size_in : Option ℕ → ℕ
size_in none = 0
size_in (some n) = n

-- The account of a list of events, without a bound.
pub record Account : Type 0 where
  pub reads : ℕ
  pub writes : ℕ
  pub bytes : ℕ

unfoldable pub add_event : Account → ObservationEvent → Account
add_event a e = record {
  reads = elim e.access [ reading ↦ suc a.reads | writing ↦ a.reads ];
  writes = elim e.access [ reading ↦ a.writes | writing ↦ suc a.writes ];
  bytes = a.bytes + size_in e.value_size;
}

-- The snapshot shows the account, up to the wrap-around.
pub record Shows (s : Snapshot) (a : Account) : Type 0 where
  pub total : s.total_events ≡ (a.reads + a.writes) % word
  pub read : s.reads ≡ a.reads % word
  pub written : s.writes ≡ a.writes % word
  pub known : s.known_value_bytes ≡ a.bytes % word

record_observation-Shows :
    (s : Snapshot) (a : Account) (e : ObservationEvent)
    → Shows s a
    → Shows (record_observation s e) (add_event a e)
unfolding record_observation count_class count_bytes add_event add_word
record_observation-Shows s a e h = go e.access e.value_size
  where
    go :
        (x : AccessClass) (v : Option ℕ)
        → Shows
            (record_observation s (record e { access = x; value_size = v }))
            (add_event a (record e { access = x; value_size = v }))
    go reading none = record {
      total = omega (arith, h.total);
      read = omega (arith, h.read);
      written = h.written;
      known = omega (arith, h.known);
    }
    go reading (some n) = record {
      total = omega (arith, h.total);
      read = omega (arith, h.read);
      written = h.written;
      known = omega (arith, h.known);
    }
    go writing none = record {
      total = omega (arith, h.total);
      read = h.read;
      written = omega (arith, h.written);
      known = omega (arith, h.known);
    }
    go writing (some n) = record {
      total = omega (arith, h.total);
      read = h.read;
      written = omega (arith, h.written);
      known = omega (arith, h.known);
    }

-- A counter that gets the events of a list, one after the other.
unfoldable pub record_observations : Snapshot → List ObservationEvent → Snapshot
record_observations s [] = s
record_observations s (e ∷ es) = record_observations (record_observation s e) es

unfoldable pub add_events : Account → List ObservationEvent → Account
add_events a [] = a
add_events a (e ∷ es) = add_events (add_event a e) es

-- The snapshot of a counter shows the account of the events that it got, up to the wrap-around at
-- 2^64, if it showed an account before.
pub record_observations-Shows :
    (es : List ObservationEvent) (s : Snapshot) (a : Account)
    → Shows s a
    → Shows (record_observations s es) (add_events a es)
unfolding record_observations add_events
record_observations-Shows [] s a h = h
record_observations-Shows (e ∷ es) s a h =
    record_observations-Shows es (record_observation s e) (add_event a e)
      (record_observation-Shows s a e h)
