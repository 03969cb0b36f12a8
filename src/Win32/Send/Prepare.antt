-- ===== src/Win32/Send/Prepare.antt =====
-- What `freespace_private_send` of win32/freespace_device.c writes, and that it gives its send
-- back.
use libfreespace.Common.{
  ℕ, zero, suc, ◌+◌, ◌-◌, ◌<◌, ◌≤◌, ◌≡◌, refl, sym, ap, ◌∙◌, inl, inr, true, false, List, [], ◌∷◌,
  ◌++◌, Option, none, some, ltb, if◌then◌else◌, is_some, get_or, set, set-set, replicate, length,
  Bool-cases, Option-cases, eq_ℤ, arith,
}
use libfreespace.Errors.{success, error_io}
use libfreespace.Win32.Types.{Handle, Interface, Send, Device, blank, blank_send}
use libfreespace.Win32.Close.{finalize_send}
use libfreespace.Win32.Receive.{is_pending}
use libfreespace.Win32.Open.{initialize_send}
use libfreespace.Win32.Send.{
  output_port, output_port_from, output_length, next_send_from, prepare_send, Prepared, Sending,
  send_activate, send_waited, private_send, not_sent, WriteCall, written, not_written, Waited,
  max_output_message_size, port_of, stop_reading,
}
use libfreespace.Win32.Send.Slots.{free_sends, next_send-free, get_or-set_at}

output_port_from-grows : (best n i : ℕ) (ss : List Interface) → n ≤ (output_port_from best n i ss).1
unfolding output_port_from
output_port_from-grows best n i [] = omega arith
output_port_from-grows best n i (s ∷ rest) = ground (
  arith,
  output_port_from-grows i (output_length s) (i + 1) rest,
  output_port_from-grows best n (i + 1) rest,
)

-- The output port has reports as long as those of any interface.
output_port_from-longest :
    (best n i : ℕ) (ss : List Interface) (j : ℕ)
    → j < length ss
    → output_length (get_or ss j blank) ≤ (output_port_from best n i ss).1
unfolding output_port_from
output_port_from-longest best n i [] j h = elim h [ ]
output_port_from-longest best n i (s ∷ rest) zero h = ground (
  arith,
  output_port_from-grows i (output_length s) (i + 1) rest,
  output_port_from-grows best n (i + 1) rest,
)
output_port_from-longest best n i (s ∷ rest) (suc j) h =
    output_port_from-longest (if ltb n (output_length s) then i else best)
      (if ltb n (output_length s) then output_length s else n) (i + 1) rest j (omega arith)

-- The port that is found, and the length that is found with it, belong together.
output_port_from-length :
    (whole ss : List Interface) (best n i : ℕ)
    → ((j : ℕ) → get_or whole (i + j) blank ≡ get_or ss j blank)
    → n ≡ output_length (get_or whole best blank)
    → output_length (get_or whole (output_port_from best n i ss).0 blank)
      ≡ (output_port_from best n i ss).1
unfolding output_port_from
output_port_from-length whole [] best n i same e = sym e
output_port_from-length whole (s ∷ rest) best n i same e =
    let later : (j : ℕ) → get_or whole (i + 1 + j) blank ≡ get_or rest j blank =
      λ j. ap (λ k. get_or whole k blank) (omega arith) ∙ same (suc j) in
    elim (Bool-cases (ltb n (output_length s))) [
      | inl c ↦
          rw (c, output_port_from)
            (output_port_from-length whole rest i (output_length s) (i + 1) later (
              ap output_length (sym (same 0))
              ∙ ap (λ k. output_length (get_or whole k blank)) (omega arith)))
      | inr c ↦ rw (c, output_port_from) (output_port_from-length whole rest best n (i + 1) later e)
    ]

-- The output port of a device has the longest reports.
output_port-longest :
    (d : Device)
    → (output_length (get_or d.interfaces (output_port d).0 blank) ≡ (output_port d).1)
      × ((j : ℕ)
          → j < length d.interfaces
          → output_length (get_or d.interfaces j blank) ≤ (output_port d).1)
unfolding output_port
output_port-longest d = (
  output_port_from-length d.interfaces d.interfaces 0 (output_length (get_or d.interfaces 0 blank))
      0 (λ j. ap (λ k. get_or d.interfaces k blank) (omega arith)) refl,
  output_port_from-longest 0 (output_length (get_or d.interfaces 0 blank)) 0 d.interfaces,
)

-- the sends are those of a list with a free one at an index
abbrev GivesBack : List Send → ℕ → List Send → Type 0
GivesBack ss i ts = (t : Send) × (t.interface ≡ none) × (ts ≡ set ss i t)

stop_reading-sends : (d : Device) (s : Send) → (stop_reading d s).sends ≡ d.sends
stop_reading-sends d s = elim (Option-cases s.interface) [
  | inl e ↦ rw e refl
  | inr (k, e) ↦ rw e refl
]

set-GivesBack :
    (d : Device) (s t : Send) (i : ℕ)
    → t.interface ≡ none
    → GivesBack d.sends i (set (stop_reading d s).sends i t)
set-GivesBack d s t i h = (t, h, ap (λ x. set x i t) (stop_reading-sends d s))

module _ (waited : Waited) (d : Device) (i : ℕ) where
  abbrev finished : Sending → Sending
  finished a = if eq_ℤ a.rc error_io then send_waited waited a.device i a else a

  send_waited-GivesBack :
      (a : Sending) → GivesBack d.sends i (send_waited waited d i a).device.sends
  unfolding send_waited finalize_send
  send_waited-GivesBack a =
      let s = get_or d.sends i blank_send in
      elim (Bool-cases waited.is_signalled) [
        | inl e ↦ rw e (_, refl, refl)
        | inr e ↦ rw e (set-GivesBack d s _ i refl)
      ]

  send_waited-write : (a : Sending) → (send_waited waited d i a).write ≡ a.write
  unfolding send_waited
  send_waited-write a = elim (Bool-cases waited.is_signalled) [
    | inl e ↦ rw e refl
    | inr e ↦ rw e refl
  ]

  send_activate-finished :
      (call : WriteCall)
      → GivesBack d.sends i (finished (send_activate call d i)).device.sends
        × ((finished (send_activate call d i)).write
            ≡ some (
              (port_of d (get_or d.sends i blank_send)).handle,
              (get_or d.sends i blank_send).report,
            ))
  unfolding send_activate finalize_send
  send_activate-finished (written n) = ((_, refl, refl), refl)
  send_activate-finished (not_written e) = elim (Bool-cases (is_pending e)) [
    | inl p ↦ rw p (send_waited-GivesBack _, send_waited-write _)
    | inr p ↦ rw p (set-GivesBack d (get_or d.sends i blank_send) _ i refl, refl)
  ]

GivesBack-free_sends :
    (ss ts : List Send) (i : ℕ)
    → i < length ss
    → (get_or ss i blank_send).interface ≡ none
    → GivesBack ss i ts
    → free_sends ts ≡ free_sends ss
GivesBack-free_sends ss ts i l f (t, n, e) = rw e (go ss i l f)
  where
    go :
        (xs : List Send) (k : ℕ)
        → k < length xs
        → (get_or xs k blank_send).interface ≡ none
        → free_sends (set xs k t) ≡ free_sends xs
    go [] k l f = elim l [ ]
    go (x ∷ rest) zero l f = rw (f, n) refl
    go (x ∷ rest) (suc k) l f =
        let ih = go rest k (omega arith) f in
        elim (Bool-cases (is_some x.interface)) [ inl e ↦ rw e ih | inr e ↦ rw e (ap suc ih) ]

-- the send that `prepareSend` fills
abbrev filled : Device → ℕ → List ℕ → Send
filled d i report = record (get_or d.sends i blank_send) {
  interface = some (output_port d).0;
  report = report ++ replicate ((output_port d).1 - length report) 0;
  rc = success;
}

prepare_send-filled :
    (event : Option Handle) (d : Device) (report : List ℕ) {i : ℕ}
    → d.is_opened ≡ true
    → next_send_from 0 d.sends ≡ some i
    → is_some (get_or d.sends i blank_send).event ≡ true
    → length report ≤ (output_port d).1
    → (output_port d).1 ≤ max_output_message_size
    → prepare_send event d report ≡ record {
      device = record d { sends = set d.sends i (filled d i report) };
      send = some i;
      rc = success;
    }
unfolding prepare_send initialize_send
prepare_send-filled event d report {i} o n e short small =
    let a : ltb (output_port d).1 (length report) ≡ false = ground (arith, short) in
    let b : ltb max_output_message_size (output_port d).1 ≡ false = ground (arith, small) in
    rw (o, n, e, a, b)
      (ap
        (λ x. record {
          device = record d { is_opened = x; sends = set d.sends i (filled d i report) };
          send = some i;
          rc = success;
        })
        o)

-- `freespace_private_send` behind `prepareSend`
abbrev sent_behind : WriteCall → Waited → Prepared → Sending
sent_behind call waited p =
    if eq_ℤ p.rc success
    then (elim p.send [
      | none ↦ not_sent p
      | some i ↦
          let a = send_activate call p.device i in
          if eq_ℤ a.rc error_io then send_waited waited a.device i a else a
    ])
    else not_sent p

-- On an open device whose first free send has its event, and whose output port takes reports of at
-- most FREESPACE_MAX_OUTPUT_MESSAGE_SIZE bytes, a report that fits the port is written to that port,
-- which is one with the longest reports, padded with zeros to their length. Whatever the system
-- answers, then or after the wait, the call gives its send back.
pub private_send-writes :
    (event : Option Handle) (call : WriteCall) (waited : Waited) (d : Device) (report : List ℕ)
    {i : ℕ}
    → d.is_opened ≡ true
    → next_send_from 0 d.sends ≡ some i
    → is_some (get_or d.sends i blank_send).event ≡ true
    → length report ≤ (output_port d).1
    → (output_port d).1 ≤ max_output_message_size
    → let r = private_send event call waited d report in
      (r.write
        ≡ some (
          (get_or d.interfaces (output_port d).0 blank).handle,
          report ++ replicate ((output_port d).1 - length report) 0,
        ))
      × (free_sends r.device.sends ≡ free_sends d.sends)
      × (output_length (get_or d.interfaces (output_port d).0 blank) ≡ (output_port d).1)
      × ((j : ℕ)
          → j < length d.interfaces
          → output_length (get_or d.interfaces j blank) ≤ (output_port d).1)
unfolding private_send
private_send-writes event call waited d report {i} o n e short small =
    let (l, f) = next_send-free d.sends i n in
    let s = filled d i report in
    let ss = set d.sends i s in
    let p = record d { sends = ss } in
    let at : get_or ss i blank_send ≡ s =
      get_or-set_at d.sends i s (get_or d.sends i blank_send) blank_send refl l in
    let ((t, free, e'), wrote) = send_activate-finished waited p i call in
    let step : private_send event call waited d report
        ≡ finished waited p i (send_activate call p i) =
      ap (sent_behind call waited) (prepare_send-filled event d report o n e short small) in
    (
      ap (λ (r : Sending). r.write) step
          ∙ wrote
          ∙ ap (λ (x : Send). some ((port_of p x).handle, x.report)) at,
      ap (λ (r : Sending). free_sends r.device.sends) step
          ∙ GivesBack-free_sends d.sends _ i l f (t, free, e' ∙ set-set d.sends i s t),
      (output_port-longest d).0,
      (output_port-longest d).1,
    )
