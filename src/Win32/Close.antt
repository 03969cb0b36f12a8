-- ===== src/Win32/Close.antt =====
-- `freespace_private_forceCloseDevice` of win32/freespace_device.c and what it calls.
pub mod Release
use libfreespace.Common.{
  ℕ, Bool, true, false, List, [], ◌∷◌, ◌++◌, Option, none, some, if◌then◌else◌, is_some,
}
use libfreespace.Win32.Types.{Handle, Interface, Send, Device}

-- what is done to the system's handles, in order
pub data Action : Type 0 where
  cancel_io : Option Handle → Action
  close_handle : Handle → Action
  reset_event : Handle → Action

-- the loop of `terminateAsyncReceives`
unfoldable pub terminated : List Interface → List Interface
terminated [] = []
terminated (s ∷ rest) =
    (if s.read_status then record s { read_status = false } else s) ∷ terminated rest

unfoldable pub cancels : List Interface → List Action
cancels [] = []
cancels (s ∷ rest) = (if s.read_status then cancel_io s.handle ∷ [] else []) ++ cancels rest

-- `terminateAsyncReceives`: the device
unfoldable pub terminate_async_receives : Device → Device
unfolding terminated
terminate_async_receives d = record d { interfaces = terminated d.interfaces }

-- `finalizeSendStruct`: the structure, what is done to its event, and the result is its `rc`
unfoldable pub finalize_send : Bool → Send → Send
finalize_send closes s = record s { interface = none; event = if closes then none else s.event }

unfoldable pub finalize_actions : Bool → Send → List Action
finalize_actions closes s = elim s.event [
  | none ↦ []
  | some e ↦ (if closes then close_handle e else reset_event e) ∷ []
]

unfoldable pub finalize_all : List Send → List Send
unfolding finalize_send
finalize_all [] = []
finalize_all (s ∷ rest) = finalize_send true s ∷ finalize_all rest

unfoldable pub finalize_all_actions : List Send → List Action
unfolding finalize_actions
finalize_all_actions [] = []
finalize_all_actions (s ∷ rest) = finalize_actions true s ++ finalize_all_actions rest

-- the loop of `freespace_private_forceCloseDevice` over the interfaces
unfoldable pub without_handles : List Interface → List Interface
without_handles [] = []
without_handles (s ∷ rest) =
    record s {
      handle = none;
      read_status = if is_some s.read_event then false else s.read_status;
      read_event = none;
    }
    ∷ without_handles rest

abbrev pub closing : Option Handle → List Action
closing none = []
closing (some h) = close_handle h ∷ []

unfoldable pub handle_actions : List Interface → List Action
handle_actions [] = []
handle_actions (s ∷ rest) = closing s.handle ++ (closing s.read_event ++ handle_actions rest)

-- `freespace_private_forceCloseDevice`: the device, and what is done to the system
unfoldable pub force_close : Device → Device
unfolding terminate_async_receives finalize_all without_handles
force_close d = record d {
  interfaces = without_handles (terminate_async_receives d).interfaces;
  sends = finalize_all d.sends;
  is_opened = false;
}

unfoldable pub force_close_actions : Device → List Action
unfolding cancels finalize_all_actions handle_actions terminate_async_receives
force_close_actions d =
    cancels d.interfaces
    ++ (finalize_all_actions d.sends ++ handle_actions (terminate_async_receives d).interfaces)

-- `freespace_closeDevice` on the device that it finds
unfoldable pub close : Device → Device
unfolding force_close
close d = if d.is_opened then force_close d else d
