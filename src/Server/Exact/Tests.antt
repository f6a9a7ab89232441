-- ===== src/Server/Exact/Tests.antt =====
-- Three events of one client, in the evaluator of hot keys.
use hybird_kv.Prelude.{
  ◌≡◌, refl, map, none, some, Bytes, bytes, bytes_eq, List, [], ◌∷◌, Option, if◌then◌else◌,
}
use hybird_kv.Server.Observe.{ObservationEvent, get, set, read_event, write_event}
use mathlib.Core.List.Perm
use hybird_kv.Server.Exact.Order.{top_keys-Perm}
use hybird_kv.Server.Exact.Ranking.{ranks_before, top_keys, Hottest, top_keys-Hottest}
use hybird_kv.Server.Exact.{
  HotKeyCounts, CountMap, counts, from_events, Counts, reads_of, writes_of, from_events-Counts,
}

instance by_key : CountMap (Bytes → Option HotKeyCounts)
by_key = record {
  empty = λ k. none;
  get = λ m k. m k;
  insert = λ m k c j. if bytes_eq k j then some c else m j;
  get-empty = λ k. refl;
  get-insert = λ m k c j. refl;
}

abbrev events : List ObservationEvent
events =
    read_event get (bytes "alpha") 1
    ∷ write_event set (bytes "beta") (some 5) 2
    ∷ read_event get (bytes "alpha") 3
    ∷ []

two_reads : reads_of (bytes "alpha") events ≡ 2
unfolding reads_of bytes_eq read_event write_event
two_reads = refl

from_events-Counts_example :
    Counts
      (counts ⦃m = by_key⦄ (from_events ⦃m = by_key⦄ events) (bytes "alpha"))
      (reads_of (bytes "alpha") events)
      (writes_of (bytes "alpha") events)
from_events-Counts_example = from_events-Counts (Bytes → Option HotKeyCounts) events (bytes "alpha")

abbrev entries : List (Bytes × HotKeyCounts)
entries =
    (bytes "beta", record { total_accesses = 1; read_accesses = 0; write_accesses = 1 })
    ∷ (bytes "alpha", record { total_accesses = 2; read_accesses = 2; write_accesses = 0 })
    ∷ []

alpha_first : map (λ h. h.key) (top_keys entries 1) ≡ bytes "alpha" ∷ []
unfolding top_keys ranks_before
alpha_first = refl

top_keys-Hottest_example : Hottest entries 1 (top_keys entries 1)
top_keys-Hottest_example = top_keys-Hottest entries 1

abbrev swapped : List (Bytes × HotKeyCounts)
swapped =
    (bytes "alpha", record { total_accesses = 2; read_accesses = 2; write_accesses = 0 })
    ∷ (bytes "beta", record { total_accesses = 1; read_accesses = 0; write_accesses = 1 })
    ∷ []

top_keys-Perm_example : top_keys entries 1 ≡ top_keys swapped 1
top_keys-Perm_example = top_keys-Perm entries swapped 1 (Perm.swap _ _ [])
