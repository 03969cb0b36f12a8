-- ===== src/Hotplug/Debounce.antt =====
-- What the settling delay of linux/linux_hotplug.c comes to, and the failures of its start.
use libfreespace.Common.{
  ℕ, ◌≡◌, refl, ◌≢◌, ◌⊎◌, Bool, true, false, not, ◌&&◌, List, [], ◌∷◌, ltb, negsuc, arith,
}
use libfreespace.Errors.{success}
use libfreespace.Hotplug.{Hotplug, settling_time, InitCalls, init, drain, perform}

-- The first `recv` of a call returns data.
abbrev pub is_event : List ℕ → Bool
is_event [] = false
is_event (rc ∷ rest) = ltb 0 rc

drain-true : (received : List ℕ) → drain received true ≡ true
unfolding drain
drain-true [] = refl
drain-true (rc ∷ rest) = ground (arith, drain-true rest)

drain_lem : (received : List ℕ) → drain received false ≡ is_event received
unfolding drain
drain_lem [] = refl
drain_lem (rc ∷ rest) = ground (arith, drain-true rest)

-- a sequence of calls of `freespace_hotplug_perform`, with what each says about a rescan
pub run : Hotplug → List (List ℕ × Bool) → List Bool
run h [] = []
run h ((received, eagain) ∷ calls) =
    let p = perform h received eagain in p.recheck ∷ run p.state calls

-- A quiet call asks for a rescan if a change is pending, that is, if the call before it saw an
-- event.
pub rescans : Bool → List (List ℕ × Bool) → List Bool
rescans pending [] = []
rescans pending ((received, eagain) ∷ calls) =
    (not (is_event received) && pending) ∷ rescans (is_event received) calls

perform-recheck :
    (h : Hotplug) (received : List ℕ) (eagain : Bool)
    → ((perform h received eagain).recheck ≡ (not (is_event received) && ltb 0 h.delay))
      × (ltb 0 (perform h received eagain).state.delay ≡ is_event received)
unfolding perform
perform-recheck h received eagain = rw (drain_lem received) (ground arith)

-- In every sequence of calls, a call asks for a rescan exactly if it sees no event and the call
-- before it saw one; the first, if the delay was running at the start, as it is after the
-- initialization.
pub run-rescans :
    (h : Hotplug) (calls : List (List ℕ × Bool)) → run h calls ≡ rescans (ltb 0 h.delay) calls
unfolding run rescans
run-rescans h [] = refl
run-rescans h ((received, eagain) ∷ calls) =
    let step = perform-recheck h received eagain in
    rw (step.0, run-rescans (perform h received eagain).state calls, step.1)

-- `freespace_hotplug_init` succeeds only from the closed state, and then holds the new socket with
-- the delay running and has closed nothing; when it fails the state is as before, and a socket that
-- it got is closed, and nothing else.
pub init_cases :
    (h : Hotplug) (c : InitCalls)
    → let r = init h c in
      (r.rc ≡ success
        × h.sock ≡ negsuc 0
        × r.state ≡ record { sock = c.socket; delay = settling_time }
        × r.closed ≡ [])
      ⊎ (r.rc ≢ success
          × r.state ≡ h
          × (((h.sock ≢ negsuc 0 ⊎ c.socket ≡ negsuc 0) × r.closed ≡ [])
              ⊎ r.closed ≡ c.socket ∷ []))
unfolding init
init_cases h c = ground arith
