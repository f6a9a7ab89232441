-- ===== src/Gui/Manager/Children.antt =====
-- The children that `ServerManager` of hkv-gui/src-tauri/src/server_manager.rs has started and not
-- reaped, by the calls that it made.
use hybird_kv.Prelude.{
  ℕ, ◌≡◌, refl, ◌∙◌, Option-cases, inl, inr, ap, Bool, true, false, Option, none, some, List, [],
  ◌∷◌, Bytes, arith, ◌==◌, if◌then◌else◌,
}
use hybird_kv.Gui.Models.{StartServerRequest}
use hybird_kv.Gui.Manager.{
  LaunchSpec, Call, spawned, slept, clock_read, runs, exited, killed, waited, failed, World, Os,
  ManagedProcess, ManagerState, new_manager, Run, try_wait, spawn, kill, wait, on_started,
  on_spawned, launch, on_inspected, on_waited, on_killed, on_taken, on_status,
}
use hybird_kv.Gui.Manager

abbrev pub without : ℕ → List ℕ → List ℕ
without p [] = []
without p (q ∷ qs) = let rest = without p qs in if q == p then qs else q ∷ rest

-- The children that run or have not been waited for.
unfoldable pub children : World → List ℕ
children [] = []
children (spawned p ∷ w) = p ∷ children w
children (exited p _ ∷ w) = without p (children w)
children (waited p ∷ w) = without p (children w)
children (_ ∷ w) = children w

-- No call has failed.
unfoldable pub flawless : World → Bool
flawless [] = true
flawless (failed ∷ w) = false
flawless (_ ∷ w) = flawless w

abbrev pub managed : Option ManagedProcess → List ℕ
managed none = []
managed (some p) = p.pid ∷ []

-- If no call has failed, the only child is the one that the manager holds.
abbrev pub Managed : {A : Type 0} → Run A → Type 0
Managed (w, s, a) = flawless w ≡ true → children w ≡ managed s.process

-- the same of the state before a method
abbrev Held : ManagerState → World → Type 0
Held s w = flawless w ≡ true → children w ≡ managed s.process

module _ (os : Os) where
  launch-Managed :
      (address : Bytes) (s : ManagerState) (w : World)
      → s.process ≡ none
      → (flawless w ≡ true → children w ≡ [])
      → Managed (launch os address s w)
  unfolding launch on_spawned spawn on_started try_wait children flawless
  launch-Managed address s w n h = ground arith

  on_inspected-Managed :
      (address : Bytes) (s : ManagerState) (p : ManagedProcess) (w : World)
      → s.process ≡ some p
      → (flawless w ≡ true → children w ≡ p.pid ∷ [])
      → Managed (on_inspected os address s p (try_wait os w p.pid))
  unfolding on_inspected try_wait children flawless
  on_inspected-Managed address s p w n h = ground (
    arith,
    λ (c : _). launch-Managed address (record s { process = none }) (exited p.pid c ∷ w) refl,
  )

  start-Managed :
      (request : Option StartServerRequest) (s : ManagerState) (w : World)
      → Held s w
      → Managed (Manager.start os request s w)
  unfolding Manager.start
  start-Managed request s w h = elim (Option-cases s.process) [
    | inl e ↦ rw (e, Manager.start) (launch-Managed _ s w e (λ q. h q ∙ ap managed e))
    | inr (p, e) ↦ rw (e, Manager.start) (on_inspected-Managed _ s p w e (λ q. h q ∙ ap managed e))
  ]

  stop-Managed : (s : ManagerState) (w : World) → Held s w → Managed (Manager.stop os s w)
  unfolding Manager.stop on_taken try_wait on_killed kill on_waited wait children flawless
  stop-Managed s w h = ground arith

  status-Managed : (s : ManagerState) (w : World) → Held s w → Managed (Manager.status os s w)
  unfolding Manager.status on_status try_wait children flawless
  status-Managed s w h = ground arith

pub data Method : Type 0 where
  start : Option StartServerRequest → Method
  stop status : Method

-- A manager and its calls, after a method.
unfoldable pub after : Os → Method → ManagerState × World → ManagerState × World
unfolding Manager.start Manager.stop Manager.status
after os (start request) (s, w) = let (w', s', _) = Manager.start os request s w in (s', w')
after os stop (s, w) = let (w', s', _) = Manager.stop os s w in (s', w')
after os status (s, w) = let (w', s', _) = Manager.status os s w in (s', w')

-- A sequence of methods, the last one first.
unfoldable pub run : Os → List Method → ManagerState × World
run os [] = (new_manager, [])
run os (m ∷ ms) = after os m (run os ms)

run-Held : (os : Os) (ms : List Method) → Held (run os ms).0 (run os ms).1
unfolding run after children
run-Held os [] = λ h. refl
run-Held os (start request ∷ ms) =
    start-Managed os request (run os ms).0 (run os ms).1 (run-Held os ms)
run-Held os (stop ∷ ms) = stop-Managed os (run os ms).0 (run os ms).1 (run-Held os ms)
run-Held os (status ∷ ms) = status-Managed os (run os ms).0 (run os ms).1 (run-Held os ms)

-- After any sequence of the methods of a new manager, whatever the system answers: if none of the
-- calls has failed, then the manager holds the only child that was started and not reaped, or
-- there is none and it holds none.
pub run-Managed :
    (os : Os) (ms : List Method)
    → flawless (run os ms).1 ≡ true
    → children (run os ms).1 ≡ managed (run os ms).0.process
run-Managed os ms = run-Held os ms
