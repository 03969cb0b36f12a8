-- ===== src/Usb/Poll/Earliest.antt =====
-- `freespace_getNextTimeout` waits no longer than anyone asked for.
use libfreespace.Common.{
  ℕ, ◌+◌, ◌*◌, ◌/◌, ◌%◌, ◌^◌, signed32, ◌≤◌, ◌<◌, ◌≡◌, refl, ◌⊎◌, inl, inr, ◌&&◌, none, some, ltb,
  pos, negsuc, arith, Bool-cases,
}
use native.Mathlib.Decide.{dec_lt}
use libfreespace.Usb.Status.{libusb_to_freespace_error-failed}
use libfreespace.Errors.{success}
use libfreespace.Hotplug.{timeout}
use libfreespace.Usb.Library.{Library}
use libfreespace.Usb.Poll.{NextTimeout, no_timeout, next, next_failed, get_next_timeout, asked}

-- A time that fits an `int` is kept.
signed32-small : (t : ℕ) → t < 2 ^ 31 → signed32 (t % 2 ^ 32) ≡ pos t
signed32-small t h = ground (arith, h)

-- Where the time that libusb asks for is less than 2 ^ 31 ms, and unless libusb fails, the timeout that is returned is that of libusb or that of the hotplug code,
-- where it has one, and is no later than either; it is -1 if neither has a timeout.
pub get_next_timeout-earliest :
    (lib : Library) (n : NextTimeout)
    → ((t : ℕ) → asked n ≡ some t → t < 2 ^ 31)
    → (get_next_timeout lib n).1 ≡ success
    → ((ms : ℕ) × ((get_next_timeout lib n).0 ≡ pos ms)
        × ((asked n ≡ some ms) ⊎ ((timeout lib.hotplug ≡ ms) × (0 < ms)))
        × ((t : ℕ) → asked n ≡ some t → ms ≤ t)
        × (0 < timeout lib.hotplug → ms ≤ timeout lib.hotplug))
      ⊎ (((get_next_timeout lib n).0 ≡ negsuc 0) × (asked n ≡ none) × (timeout lib.hotplug ≡ 0))
unfolding get_next_timeout
get_next_timeout-earliest lib no_timeout f e = elim (dec_lt 0 (timeout lib.hotplug)) [
  | yes l ↦ inl (
    timeout lib.hotplug,
    ground arith,
    inr (refl, l),
    λ t h. absurd (ground arith),
    λ h. omega arith,
  )
  | no l ↦ inr (ground arith, refl, omega arith)
]
get_next_timeout-earliest lib (next sec usec) f e =
    let ms = sec * 1000 + usec / 1000 in
    let hotplug = timeout lib.hotplug in
    rw (signed32-small ms (f ms refl)) (elim (Bool-cases (ltb 0 hotplug && ltb hotplug ms)) [
      | inl b ↦
          inl (hotplug, rw b refl, inr (refl, ground arith), λ t h. ground arith, λ h. omega arith)
      | inr b ↦ inl (ms, rw b refl, inl refl, λ t h. ground arith, λ h. ground arith)
    ])
get_next_timeout-earliest lib (next_failed x) f e = absurd (libusb_to_freespace_error-failed x e)
