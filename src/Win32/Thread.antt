-- ===== src/Win32/Thread.antt =====
-- `discoveryWindow` and `discoveryCallback` of win32/freespace_discovery.c: what the thread of the
-- hidden window makes of the instance.
use libfreespace.Common.{Bool, true, false, not, List, [], ◌∷◌, Option, none, some, if◌then◌else◌}
use libfreespace.Errors.{error_unexpected}
use libfreespace.Win32.Types.{Handle, Manager}

-- what the thread gets: whether the class is registered, the window, and its notification
pub record WindowCalls : Type 0 where
  pub registers : Bool
  pub window : Option Handle
  pub notification : Option Handle

abbrev pub thread_fails : Manager → Manager
thread_fails m = record m { discovery_thread_status = error_unexpected }

-- `discoveryWindow` up to its message loop; the Boolean tells whether it gets there.
unfoldable pub discovery_window : WindowCalls → Manager → Manager × Bool
discovery_window c m = if not c.registers then (thread_fails m, false) else elim c.window [
  | none ↦ (thread_fails (record m { window = none }), false)
  | some w ↦ elim c.notification [
    | none ↦ (thread_fails (record m { window = some w; window_event = none }), false)
    | some e ↦ (record m { window = some w; window_event = some e }, true)
  ]
]

-- A message that the window gets: its end, the last part of its end, a change of devices, or
-- another.
pub data WindowMessage : Type 0 where
  wm_close wm_destroy wm_device_change other_message : WindowMessage

-- What the window does with a message: it destroys itself, takes back its notification, ends the
-- timer and the loop, or asks for a scan.
pub data WindowAction : Type 0 where
  destroys_window requests_rescan cancels_timer quits default_procedure : WindowAction
  unregisters_notification closes_timer : Option Handle → WindowAction

-- `discoveryCallback`
unfoldable pub discovery_callback : WindowMessage → Manager → Manager × List WindowAction
discovery_callback wm_close m = (m, destroys_window ∷ default_procedure ∷ [])
discovery_callback wm_destroy m =
    let closing = cancels_timer ∷ closes_timer m.discovery_event ∷ quits ∷ default_procedure ∷ [] in
    elim m.window_event [
      | none ↦ (record m { discovery_event = none }, closing)
      | some e ↦ (
        record m { window_event = none; discovery_event = none },
        unregisters_notification (some e) ∷ closing,
      )
    ]
discovery_callback wm_device_change m = (m, requests_rescan ∷ [])
discovery_callback other_message m = (m, default_procedure ∷ [])

-- the part of `discoveryWindow` behind the loop
abbrev pub thread_ends : Manager → Manager
thread_ends m = record m { window = none }
