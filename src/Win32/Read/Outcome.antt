-- ===== src/Win32/Read/Outcome.antt =====
-- What `freespace_private_read` of win32/freespace_device.c leaves on every path.
use libfreespace.Common.{
  ℕ, ◌+◌, ◌≡◌, ◌≢◌, refl, ◌⊎◌, inl, inr, Bool, true, false, List, [], ◌∷◌, none, some,
  if◌then◌else◌, take, ℤ,
}
use libfreespace.Errors.{success, error_io, error_timeout}
use libfreespace.Usb.Message.{Decode}
use libfreespace.Win32.Types.{Interface, Device}
use libfreespace.Win32.Receive.{
  LastError, Overlapped, completed, not_completed, is_pending, is_incomplete, Hotplug,
}
use libfreespace.Win32.Receive.Listening.{
  IsShut, AllReading, handle_device_failure-IsShut, failure_code-ne-success,
}
use libfreespace.Win32.Read.{
  Progress, through, came, broke, behind, start_from, check_from, Wait, wait_failed, wait_timeout,
  wait_signalled, ReadRun, resolve, private_read, ended,
}

-- One interface holds these bytes and is not reading.
abbrev pub Holds : List ℕ → List Interface → Type 0
Holds bytes [] = ⊥
Holds bytes (s ∷ rest) = ((s.read_buffer ≡ bytes) × (s.read_status ≡ false)) ⊎ Holds bytes rest

-- Where a loop ends: all reads are going on, or bytes came, or the device failed.
abbrev pub Ends : Progress → Type 0
Ends (through ss) = AllReading ss
Ends (came ss bytes) = Holds bytes ss
Ends (broke ss e) = Unit {0}

behind-Ends : (s : Interface) (p : Progress) → s.read_status ≡ true → Ends p → Ends (behind s p)
behind-Ends s (through ss) r h = (r, h)
behind-Ends s (came ss bytes) r h = inr h
behind-Ends s (broke ss e) r h = tt

if-Ends :
    (b : Bool) (p q : Progress)
    → (b ≡ true → Ends p)
    → (b ≡ false → Ends q)
    → Ends (if b then p else q)
if-Ends true p q h k = h refl
if-Ends false p q h k = k refl

start_from-Ends :
    (calls : ℕ → Overlapped) (i : ℕ) (ss : List Interface) → Ends (start_from calls i ss)
unfolding start_from
start_from-Ends calls i [] = tt
start_from-Ends calls i (s ∷ rest) =
    let ih = start_from-Ends calls (i + 1) rest in
    if-Ends s.read_status _ _ (λ r. behind-Ends s _ r ih) (λ r. started (calls i) r ih)
  where
    started :
        (c : Overlapped)
        → s.read_status ≡ false
        → Ends (start_from calls (i + 1) rest)
        → Ends (elim c [
          | completed bytes ↦ came (record s { read_buffer = bytes } ∷ rest) bytes
          | not_completed e ↦
              if is_pending e
              then behind (record s { read_status = true }) (start_from calls (i + 1) rest)
              else broke (s ∷ rest) e
        ])
    started (completed bytes) r ih = inl (refl, r)
    started (not_completed e) r ih =
        if-Ends (is_pending e) _ _ (λ p. behind-Ends (record s { read_status = true }) _ refl ih)
          (λ p. tt)

check_from-Ends :
    (results : ℕ → Overlapped) (i : ℕ) (ss : List Interface)
    → AllReading ss
    → Ends (check_from results i ss)
unfolding check_from
check_from-Ends results i [] a = tt
check_from-Ends results i (s ∷ rest) (r, a) =
    checked (results i) (behind-Ends s _ r (check_from-Ends results (i + 1) rest a))
  where
    checked :
        (c : Overlapped)
        → Ends (behind s (check_from results (i + 1) rest))
        → Ends (elim c [
          | completed bytes ↦
              came (record s { read_buffer = bytes; read_status = false } ∷ rest) bytes
          | not_completed e ↦
              if is_incomplete e
              then behind s (check_from results (i + 1) rest)
              else broke (s ∷ rest) e
        ])
    checked (completed bytes) ih = inl (refl, refl)
    checked (not_completed e) ih = if-Ends (is_incomplete e) _ _ (λ p. ih) (λ p. tt)

-- The bytes that are copied out are the first ones that an interface holds, and it is not reading.
abbrev pub Gives : {Body : Type 0} → ℕ → ReadRun Body → Type 0
Gives max_length r =
    (r.rc ≡ success)
    × ((b : List ℕ) × ((r.bytes ≡ some (take max_length b)) × Holds b r.device.interfaces))

-- The device fails: it is shut, and another scan is asked for.
abbrev pub Breaks : {Body : Type 0} → ReadRun Body → Type 0
Breaks r =
    (r.rc ≢ success)
    × ((r.bytes ≡ none) × IsShut (record { device = r.device; rc = r.rc; effects = r.effects }))

-- The reads go on, and nothing is copied out.
abbrev pub Waits : {Body : Type 0} → ReadRun Body → Type 0
Waits r =
    ((r.rc ≡ error_io) ⊎ (r.rc ≡ error_timeout))
    × ((r.bytes ≡ none) × AllReading r.device.interfaces)

abbrev pub Outcome : {Body : Type 0} → ℕ → ReadRun Body → Type 0
Outcome max_length r = Gives max_length r ⊎ (Breaks r ⊎ Waits r)

module _ {Body : Type 0} (decode : Decode Body) (code : LastError → ℤ) (hotplug : Hotplug) where
  resolve-Outcome :
      (max_length : ℕ) (d : Device) (p : Progress) (next : Device → ReadRun Body)
      → Ends p
      → ((ss : List Interface)
          → AllReading ss
          → Outcome max_length (next (record d { interfaces = ss })))
      → Outcome max_length (resolve decode code hotplug max_length d p next)
  unfolding resolve
  resolve-Outcome max_length d (through ss) next e h = h ss e
  resolve-Outcome max_length d (came ss bytes) next e h = inl (refl, (bytes, (refl, e)))
  resolve-Outcome max_length d (broke ss x) next e h = inr (
      inl (
        failure_code-ne-success x,
        (refl, handle_device_failure-IsShut decode code hotplug (record d { interfaces = ss }) x),
      ))

  -- Whatever the system answers, `freespace_private_read` ends in one of three ways. It succeeds,
  -- and what it copies out are the first bytes, as many as asked for at most, of what an interface
  -- holds that is not reading any more. Or it reports an error of the device, copies nothing, the
  -- device is closed, unavailable and holds no handle or event, and another scan is asked for. Or
  -- it reports an I/O error or the timeout, copies nothing, and a read goes on at each interface.
  pub private_read-Outcome :
      (calls : ℕ → Overlapped) (wait : Wait) (results : ℕ → Overlapped) (max_length : ℕ)
      (d : Device)
      → Outcome max_length (private_read decode code hotplug calls wait results max_length d)
  unfolding private_read
  private_read-Outcome calls wait results max_length d =
      resolve-Outcome max_length d _ _ (start_from-Ends calls 0 d.interfaces)
        (λ ss a. waited wait ss a)
    where
      waited :
          (w : Wait) (ss : List Interface)
          → AllReading ss
          → Outcome max_length (elim w [
            | wait_failed ↦ ended decode code hotplug (record d { interfaces = ss }) error_io
            | wait_timeout ↦ ended decode code hotplug (record d { interfaces = ss }) error_timeout
            | wait_signalled ↦
                resolve decode code hotplug max_length
                  (record d { interfaces = ss })
                  (check_from results 0 ss)
                  (λ d''. ended decode code hotplug d'' error_io)
          ])
      waited wait_failed ss a = inr (inr (inl refl, (refl, a)))
      waited wait_timeout ss a = inr (inr (inr refl, (refl, a)))
      waited wait_signalled ss a =
          resolve-Outcome max_length (record d { interfaces = ss }) _ _
            (check_from-Ends results 0 ss a) (λ ts b. inr (inr (inl refl, (refl, b))))
