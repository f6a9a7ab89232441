-- ===== src/Gui/RedisBenchmark/Stopping.antt =====
-- hkv-gui/src-tauri/src/runners/redis_benchmark.rs: `stop` against the thread that waits for the
-- process. Both go through one lock, which the thread holds while it waits.
use hybird_kv.Prelude.{
  ℕ, suc, ◌+◌, ◌≡◌, refl, sym, subst, ap, Bool, true, false, List, [], ◌∷◌, ◌++◌, Bytes, replicate,
}

pub data Answer : Type 0 where
  stopped : Answer
  run_not_active : Answer
  stop_failed : Bytes → Answer

-- The shared state: whether the process is in its place, whether the thread holds the lock, the
-- flag, the calls of `kill`, and the answers of `stop`, the last one first.
pub record Shared : Type 0 where
  pub present : Bool
  pub locked : Bool
  pub cancelled : Bool
  pub kills : ℕ
  pub answers : List Answer

abbrev pub begun : Shared
begun = record { present = true; locked = false; cancelled = false; kills = 0; answers = [] }

-- `stop` under the lock, with the answer of `kill`
unfoldable pub stop_locked : Answer → Shared → Shared
stop_locked killed s = elim s.present [
  | true ↦ record s { kills = s.kills + 1; answers = killed ∷ s.answers }
  | false ↦ record s { answers = run_not_active ∷ s.answers }
]

-- A step of a caller of `stop` or of the thread: who wants the lock waits until it is free.
pub data Step : Shared → Shared → Type 0 where
  flag : (s : Shared) → Step s (record s { cancelled = true })
  stop : (killed : Answer) (s : Shared) → s.locked ≡ false → Step s (stop_locked killed s)
  take :
      (s : Shared)
      → s.locked ≡ false
      → s.present ≡ true
      → Step s (record s { present = false; locked = true })
  exit : (s : Shared) → s.locked ≡ true → Step s (record s { locked = false })

pub data Run (s : Shared) : Shared → Type 0 where
  here : Run s s
  next : {t u : Shared} → Run s t → Step t u → Run s u

-- No more calls of `kill` than before, and `stop` has refused each time.
pub record Refused (s t : Shared) : Type 0 where
  pub absent : t.present ≡ false
  pub kept : t.kills ≡ s.kills
  pub count : ℕ
  pub refusals : t.answers ≡ replicate count run_not_active ++ s.answers

stop_locked-absent :
    (killed : Answer) (t : Shared)
    → t.present ≡ false
    → stop_locked killed t ≡ record t { answers = run_not_active ∷ t.answers }
unfolding stop_locked
stop_locked-absent killed t h =
    ap
      (λ (b : Bool).
        let u : Shared = elim b [
          | true ↦ record t { kills = t.kills + 1; answers = killed ∷ t.answers }
          | false ↦ record t { answers = run_not_active ∷ t.answers }
        ] in
        u)
      h

Step-Refused : (s : Shared) {t u : Shared} → Step t u → Refused s t → Refused s u
Step-Refused s (flag t) r = record {
  absent = r.absent;
  kept = r.kept;
  count = r.count;
  refusals = r.refusals;
}
Step-Refused s (stop killed t free) r =
    subst (Refused s) (sym (stop_locked-absent killed t r.absent)) (record {
      absent = r.absent;
      kept = r.kept;
      count = suc r.count;
      refusals = ap (◌∷◌ run_not_active) r.refusals;
    })
Step-Refused s (take t free there) r = absurd (cc (there))
Step-Refused s (exit t held) r = record {
  absent = r.absent;
  kept = r.kept;
  count = r.count;
  refusals = r.refusals;
}

-- Once the thread has taken the process to wait for it, no call of `stop` kills the process,
-- however the steps of callers and of the thread follow one another: each one that gets the lock
-- answers `run_not_active`.
pub Run-Refused : (s : Shared) {t : Shared} → s.present ≡ false → Run s t → Refused s t
Run-Refused s h here = record { absent = h; kept = refl; count = 0; refusals = refl }
Run-Refused s h (next r st) = Step-Refused s st (Run-Refused s h r)
