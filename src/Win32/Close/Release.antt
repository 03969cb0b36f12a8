-- ===== src/Win32/Close/Release.antt =====
-- `freespace_private_forceCloseDevice` of win32/freespace_device.c gives back what a device holds.
use libfreespace.Common.{
  ◌≡◌, refl, ap, ◌∙◌, inl, inr, List, [], ◌∷◌, ◌++◌, Option, none, some, Bool-cases, Option-cases,
}
use libfreespace.Win32.Types.{Handle, Interface, Send, Device}
use libfreespace.Win32.Close.{
  Action, cancel_io, close_handle, reset_event, terminated, cancels, terminate_async_receives,
  finalize_actions, finalize_all, finalize_all_actions, finalize_send, without_handles, closing,
  handle_actions, force_close, force_close_actions,
}

abbrev pub held : Option Handle → List Handle
held none = []
held (some h) = h ∷ []

abbrev pub held_by_sends : List Send → List Handle
held_by_sends [] = []
held_by_sends (s ∷ rest) = held s.event ++ held_by_sends rest

abbrev pub held_by_interfaces : List Interface → List Handle
held_by_interfaces [] = []
held_by_interfaces (s ∷ rest) = held s.handle ++ (held s.read_event ++ held_by_interfaces rest)

-- the handles and the events that a device holds
abbrev pub held_by : Device → List Handle
held_by d = held_by_sends d.sends ++ held_by_interfaces d.interfaces

-- the handles that are closed
abbrev pub closed_by : List Action → List Handle
closed_by [] = []
closed_by (close_handle h ∷ rest) = h ∷ closed_by rest
closed_by (cancel_io h ∷ rest) = closed_by rest
closed_by (reset_event h ∷ rest) = closed_by rest

closed_by-append : (xs ys : List Action) → closed_by (xs ++ ys) ≡ closed_by xs ++ closed_by ys
closed_by-append [] ys = refl
closed_by-append (close_handle h ∷ rest) ys = ap (λ hs. h ∷ hs) (closed_by-append rest ys)
closed_by-append (cancel_io h ∷ rest) ys = closed_by-append rest ys
closed_by-append (reset_event h ∷ rest) ys = closed_by-append rest ys

closed_by-cancels : (ss : List Interface) → closed_by (cancels ss) ≡ []
unfolding cancels
closed_by-cancels [] = refl
closed_by-cancels (s ∷ rest) = elim (Bool-cases s.read_status) [
  | inl e ↦ rw e (closed_by-cancels rest)
  | inr e ↦ rw e (closed_by-cancels rest)
]

closed_by-finalize : (ss : List Send) → closed_by (finalize_all_actions ss) ≡ held_by_sends ss
unfolding finalize_all_actions finalize_actions
closed_by-finalize [] = refl
closed_by-finalize (s ∷ rest) = elim (Option-cases s.event) [
  | inl e ↦ rw e (closed_by-finalize rest)
  | inr (h, e) ↦ rw e (ap (λ hs. h ∷ hs) (closed_by-finalize rest))
]

closed_by-closing :
    (o : Option Handle) (xs : List Action) → closed_by (closing o ++ xs) ≡ held o ++ closed_by xs
closed_by-closing none xs = refl
closed_by-closing (some h) xs = refl

closed_by-handles : (ss : List Interface) → closed_by (handle_actions ss) ≡ held_by_interfaces ss
unfolding handle_actions
closed_by-handles [] = refl
closed_by-handles (s ∷ rest) =
    closed_by-closing s.handle (closing s.read_event ++ handle_actions rest)
    ∙ ap (λ hs. held s.handle ++ hs)
        (closed_by-closing s.read_event (handle_actions rest)
          ∙ ap (λ hs. held s.read_event ++ hs) (closed_by-handles rest))

held-terminated : (ss : List Interface) → held_by_interfaces (terminated ss) ≡ held_by_interfaces ss
unfolding terminated
held-terminated [] = refl
held-terminated (s ∷ rest) = elim (Bool-cases s.read_status) [
  | inl e ↦ rw e (ap (λ hs. held s.handle ++ (held s.read_event ++ hs)) (held-terminated rest))
  | inr e ↦ rw e (ap (λ hs. held s.handle ++ (held s.read_event ++ hs)) (held-terminated rest))
]

held-without_handles : (ss : List Interface) → held_by_interfaces (without_handles ss) ≡ []
unfolding without_handles
held-without_handles [] = refl
held-without_handles (s ∷ rest) = held-without_handles rest

held-finalize_all : (ss : List Send) → held_by_sends (finalize_all ss) ≡ []
unfolding finalize_all finalize_send
held-finalize_all [] = refl
held-finalize_all (s ∷ rest) = held-finalize_all rest

-- `freespace_private_forceCloseDevice` closes every handle and event that the device holds exactly
-- once, the events of the sends first, and closes nothing else. The device holds none then.
pub force_close-releases :
    (d : Device) → (closed_by (force_close_actions d) ≡ held_by d) × (held_by (force_close d) ≡ [])
unfolding force_close force_close_actions terminate_async_receives
force_close-releases d =
    let sends = finalize_all_actions d.sends in
    let handles = handle_actions (terminated d.interfaces) in
    (
      closed_by-append (cancels d.interfaces) (sends ++ handles)
          ∙ ap (λ hs. hs ++ closed_by (sends ++ handles)) (closed_by-cancels d.interfaces)
          ∙ closed_by-append sends handles
          ∙ ap (λ hs. hs ++ closed_by handles) (closed_by-finalize d.sends)
          ∙ ap (λ hs. held_by_sends d.sends ++ hs)
              (closed_by-handles (terminated d.interfaces) ∙ held-terminated d.interfaces),
      ap (λ hs. hs ++ held_by_interfaces (without_handles (terminated d.interfaces)))
            (held-finalize_all d.sends)
          ∙ held-without_handles (terminated d.interfaces),
    )
