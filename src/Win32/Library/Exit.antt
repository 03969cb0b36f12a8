-- ===== src/Win32/Library/Exit.antt =====
-- `freespace_exit` of win32/freespace_deviceMgr.c: what it gives back, and where it reads a freed device.
use libfreespace.Common.{
  ℕ, ◌≡◌, refl, Bool, not, ◌&&◌, Option, inl, inr, true, List, [], ◌∷◌, ◌++◌, none, some,
  if◌then◌else◌, Option-cases,
}
use libfreespace.Win32.Types.{Handle, Device, Manager}
use libfreespace.Win32.Close.{cancel_io, close_handle, reset_event}
use libfreespace.Win32.Close.Release.{held, held_by}
use libfreespace.Win32.Thread.{wm_destroy, discovery_callback, thread_ends}
use libfreespace.Win32.Library.{
  Step, watches, unwatches, acts, cancel_timer, close_event, frees, frees_instance, destroy_window,
}

-- the handles that these steps close
abbrev pub closed_in : List Step → List Handle
closed_in [] = []
closed_in (acts (close_handle h) ∷ rest) = h ∷ closed_in rest
closed_in (acts (cancel_io h) ∷ rest) = closed_in rest
closed_in (acts (reset_event h) ∷ rest) = closed_in rest
closed_in (close_event e ∷ rest) = held e ++ closed_in rest
closed_in (watches c e n ∷ rest) = closed_in rest
closed_in (unwatches c e ∷ rest) = closed_in rest
closed_in (cancel_timer e ∷ rest) = closed_in rest
closed_in (frees id ∷ rest) = closed_in rest
closed_in (frees_instance ∷ rest) = closed_in rest

-- the ids of the devices that are freed
abbrev pub freed_in : List Step → List ℕ
freed_in [] = []
freed_in (frees id ∷ rest) = id ∷ freed_in rest
freed_in (acts a ∷ rest) = freed_in rest
freed_in (close_event e ∷ rest) = freed_in rest
freed_in (watches c e n ∷ rest) = freed_in rest
freed_in (unwatches c e ∷ rest) = freed_in rest
freed_in (cancel_timer e ∷ rest) = freed_in rest
freed_in (frees_instance ∷ rest) = freed_in rest

-- None of the devices is opened.
abbrev pub none_opened : List Device → Bool
none_opened [] = true
none_opened (d ∷ rest) = not d.is_opened && none_opened rest

-- what the first device holds, if it is opened
abbrev pub held_by_first : List Device → List Handle
held_by_first [] = []
held_by_first (d ∷ rest) = if d.is_opened then held_by d else []

abbrev pub behind_first : List Device → List Device
behind_first [] = []
behind_first (d ∷ rest) = rest

abbrev pub ids : List Device → List ℕ
ids [] = []
ids (d ∷ rest) = d.id ∷ ids rest

-- What `freespace_exit` meets at the thread is what the window does on WM_DESTROY, and the end
-- behind its loop.
destroy_window-thread_ends :
    (m : Manager)
    → ((destroy_window m).0.discovery_event
        ≡ (thread_ends (discovery_callback wm_destroy m).0).discovery_event)
      × ((destroy_window m).0.window_event
          ≡ (thread_ends (discovery_callback wm_destroy m).0).window_event)
      × ((destroy_window m).0.window ≡ (thread_ends (discovery_callback wm_destroy m).0).window)
unfolding discovery_callback
destroy_window-thread_ends m = elim (Option-cases m.window_event) [
  | inl e ↦ rw e (refl, refl, refl)
  | inr (x, e) ↦ rw e (refl, refl, refl)
]

-- the end of `freespace_exit` by what its loop does
abbrev ended : List Step → List Step → Option (List Step) → Option (Option Manager × List Step)
ended before ys none = none
ended before ys (some steps) = some (none, before ++ (steps ++ ys))
