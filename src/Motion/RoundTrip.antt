-- ===== src/Motion/RoundTrip.antt =====
-- What a device packs into a MotionEngine output packet is what the getters of
-- common/freespace_util.c read.
use libfreespace.Common.{
  ℕ, Bool, true, false, ◌+◌, ◌*◌, ◌/◌, ◌%◌, ◌^◌, ◌<◌, ◌≡◌, ◌≢◌, refl, ap, ◌∙◌, List, [], ◌∷◌, ◌++◌,
  append_assoc, Option, none, some, ◌==◌, length, length-append, get_elem?, get_elem?-append_right,
  ℤ, pos, signed16, signed8, arith,
}
use mathlib.Core.Path.{ap₂}
use libfreespace.Errors.{success}
use libfreespace.Motion.Extract.{
  Packet, MultiAxisSensor, at, skip, checked, finish, axis_val, flag_val, extract_xyz, extract_xyzw,
  extract_wxyz, extract_w, extract_x, extract_flags,
}
use libfreespace.Motion.Layout.{
  Quantity, acceleration, acc_no_gravity, angular_velocity, magnetometer, inclination, temperature,
  compass_heading, ang_pos, act_class, index, Field, layout, find, found, locate,
  locate-eq-describe,
}
use libfreespace.Motion.Bounds.{read, extract, read_lem}

-- The bytes of a field, if the packet has it.
abbrev pub Section : Type 0
Section = Option (List ℕ)

abbrev flag : Section → ℕ
flag none = 0
flag (some b) = 1

abbrev bytes : Section → List ℕ
bytes none = []
bytes (some b) = b

abbrev flag_list : List Section → List ℕ
flag_list [] = []
flag_list (s ∷ ss) = flag s ∷ flag_list ss

abbrev payload : List Section → List ℕ
payload [] = []
payload (s ∷ ss) = bytes s ++ payload ss

-- one section for each format flag
pub record Sections : Type 0 where
  pub s0 : Section
  pub s1 : Section
  pub s2 : Section
  pub s3 : Section
  pub s4 : Section
  pub s5 : Section
  pub s6 : Section
  pub s7 : Section

abbrev pub all : Sections → List Section
all c = c.s0 ∷ c.s1 ∷ c.s2 ∷ c.s3 ∷ c.s4 ∷ c.s5 ∷ c.s6 ∷ c.s7 ∷ []

-- the packet of a format with these sections, and the unused rest of `meData`
abbrev pub pack : ℕ → Sections → List ℕ → Packet
pack format c rest = record {
  format_select = format;
  ff0 = flag c.s0;
  ff1 = flag c.s1;
  ff2 = flag c.s2;
  ff3 = flag c.s3;
  ff4 = flag c.s4;
  ff5 = flag c.s5;
  ff6 = flag c.s6;
  ff7 = flag c.s7;
  me_data = payload (all c) ++ rest;
}

abbrev pub IsSized : Field → Section → Type 0
IsSized f none = Unit {0}
IsSized f (some b) = length b ≡ f.size

-- The section at the place of the quantity holds `b`, its scale is `scale`, and each section before
-- it is absent or has the size of its field.
pub data Carries (q : Quantity) (b : List ℕ) (scale : ℕ) : List Field → List Section → Type 0 where
  here :
      {f : Field} {fs : List Field} {s : Section} {ss : List Section}
      → f.tag ≡ index q
      → s ≡ some b
      → f.scale ≡ scale
      → Carries q b scale (f ∷ fs) (s ∷ ss)
  there :
      {f : Field} {fs : List Field} {s : Section} {ss : List Section}
      → f.tag ≢ index q
      → IsSized f s
      → Carries q b scale fs ss
      → Carries q b scale (f ∷ fs) (s ∷ ss)

record Lies (q : Quantity) (b : List ℕ) (scale : ℕ) (fs : List Field) (ss : List Section) (o : ℕ)
    : Type 0 where
  before : List ℕ
  after : List ℕ
  split : payload ss ≡ before ++ (b ++ after)
  located : find q fs (flag_list ss) o ≡ at (pos (o + length before)) scale

skip-section :
    (f : Field) (s : Section) (o : ℕ) → IsSized f s → skip (flag s) f.size o ≡ o + length (bytes s)
unfolding skip
skip-section f none o h = omega arith
skip-section f (some b) o h = omega arith

Lies-behind :
    {q : Quantity} {b : List ℕ} {scale : ℕ} {fs : List Field} {ss : List Section} (f : Field)
    (s : Section) (o : ℕ)
    → f.tag ≢ index q
    → IsSized f s
    → Lies q b scale fs ss (skip (flag s) f.size o)
    → Lies q b scale (f ∷ fs) (s ∷ ss) o
unfolding checked
Lies-behind f s o tag sized rest = record {
  before = bytes s ++ rest.before;
  after = rest.after;
  split = rw (rest.split, append_assoc);
  located =
      ground (arith, rest.located, skip-section f s o sized, length-append (bytes s) rest.before);
}

lies :
    {q : Quantity} {b : List ℕ} {scale : ℕ} {fs : List Field} {ss : List Section} (o : ℕ)
    → Carries q b scale fs ss
    → Lies q b scale fs ss o
unfolding checked
lies o (here {ss = ss} tag has e) = record {
  before = [];
  after = payload ss;
  split = rw has;
  located = ground arith;
}
lies o (there {f = f} {s = s} tag sized c) =
    Lies-behind f s o tag sized (lies (skip (flag s) f.size o) c)

-- The values of a quantity: 16-bit words, but bytes for the activity classification.
pub record Quaternion : Type 0 where
  pub w : ℕ
  pub x : ℕ
  pub y : ℕ
  pub z : ℕ

abbrev pub Values : Quantity → Type 0
Values temperature = ℕ
Values compass_heading = ℕ
Values act_class = ℕ × ℕ
Values ang_pos = Quaternion
Values _ = ℕ × ℕ × ℕ

abbrev IsWord : ℕ → Type 0
IsWord v = v < 2 ^ 16

abbrev pub InRange : (q : Quantity) → Values q → Type 0
InRange temperature v = IsWord v
InRange compass_heading v = IsWord v
InRange act_class (x, y) = (x < 2 ^ 8) × (y < 2 ^ 8)
InRange ang_pos v = IsWord v.w × IsWord v.x × IsWord v.y × IsWord v.z
InRange acceleration (x, y, z) = IsWord x × IsWord y × IsWord z
InRange acc_no_gravity (x, y, z) = IsWord x × IsWord y × IsWord z
InRange angular_velocity (x, y, z) = IsWord x × IsWord y × IsWord z
InRange magnetometer (x, y, z) = IsWord x × IsWord y × IsWord z
InRange inclination (x, y, z) = IsWord x × IsWord y × IsWord z

-- low byte first
abbrev word : ℕ → List ℕ → List ℕ
word v rest = v % 256 ∷ v / 256 % 256 ∷ rest

-- The bytes of the values, in the packet's order: the quaternion has its w last in format 1
-- (`true`) and first otherwise.
abbrev pub encode : (q : Quantity) → Bool → Values q → List ℕ
encode temperature b v = word v []
encode compass_heading b v = word v []
encode act_class b (x, y) = x ∷ y ∷ []
encode ang_pos true v = word v.x (word v.y (word v.z (word v.w [])))
encode ang_pos false v = word v.w (word v.x (word v.y (word v.z [])))
encode acceleration b (x, y, z) = word x (word y (word z []))
encode acc_no_gravity b (x, y, z) = word x (word y (word z []))
encode angular_velocity b (x, y, z) = word x (word y (word z []))
encode magnetometer b (x, y, z) = word x (word y (word z []))
encode inclination b (x, y, z) = word x (word y (word z []))

word_value : (v : ℕ) → IsWord v → v / 256 % 256 * 256 + v % 256 ≡ v
word_value v h = omega arith

-- A word that is packed behind `before` is read back.
axis_val-word :
    (before ys : List ℕ) (i v : ℕ)
    → IsWord v
    → get_elem? ys i ≡ some (v % 256)
    → get_elem? ys (i + 1) ≡ some (v / 256 % 256)
    → axis_val (before ++ ys) (length before) i ≡ some (signed16 v)
unfolding axis_val
axis_val-word before ys i v h low high = rw (
  get_elem?-append_right before ys (i + 1),
  get_elem?-append_right before ys i,
  low,
  high,
  word_value v h,
)

flag_val-byte :
    (before ys : List ℕ) (i v : ℕ)
    → get_elem? ys i ≡ some v
    → flag_val (before ++ ys) (length before) i ≡ some (signed8 v)
unfolding flag_val
flag_val-byte before ys i v e = rw (get_elem?-append_right before ys i, e)

module _ {Float : Type 0} (quotient : ℤ → ℕ → Float) where
  abbrev scaled16 : ℕ → ℕ → Float
  scaled16 scale v = quotient (signed16 v) scale

  abbrev scaled8 : ℕ → ℕ → Float
  scaled8 scale v = quotient (signed8 v) scale

  abbrev fill_xyz : ℕ → ℕ × ℕ × ℕ → MultiAxisSensor Float → MultiAxisSensor Float
  fill_xyz scale (x, y, z) s = record s {
    x = scaled16 scale x;
    y = scaled16 scale y;
    z = scaled16 scale z;
  }

  -- The sensor that holds the values, each divided by the scale.
  abbrev pub fill : (q : Quantity) → ℕ → Values q → MultiAxisSensor Float → MultiAxisSensor Float
  fill temperature scale v s = record s { w = scaled16 scale v }
  fill compass_heading scale v s = record s { x = scaled16 scale v }
  fill act_class scale (x, y) s = record s { x = scaled8 scale x; y = scaled8 scale y }
  fill ang_pos scale v s = record {
    w = scaled16 scale v.w;
    x = scaled16 scale v.x;
    y = scaled16 scale v.y;
    z = scaled16 scale v.z;
  }
  fill acceleration scale v s = fill_xyz scale v s
  fill acc_no_gravity scale v s = fill_xyz scale v s
  fill angular_velocity scale v s = fill_xyz scale v s
  fill magnetometer scale v s = fill_xyz scale v s
  fill inclination scale v s = fill_xyz scale v s

  module _ (before after : List ℕ) (s : MultiAxisSensor Float) (scale : ℕ) where
    extract_xyz-encode :
        (v : ℕ × ℕ × ℕ)
        → IsWord v.0 × IsWord v.1 × IsWord v.2
        → extract_xyz quotient
            (before ++ word v.0 (word v.1 (word v.2 after)))
            s
            (length before)
            scale
          ≡ some (success, fill_xyz scale v s)
    unfolding extract_xyz
    extract_xyz-encode (x, y, z) (hx, hy, hz) =
        let ys = word x (word y (word z after)) in
        rw (
          axis_val-word before ys 0 x hx refl refl,
          axis_val-word before ys 2 y hy refl refl,
          axis_val-word before ys 4 z hz refl refl,
        )

    extract-encode :
        (q : Quantity) (b : Bool) (v : Values q)
        → InRange q v
        → extract quotient q b (before ++ (encode q b v ++ after)) s (length before) scale
          ≡ some (success, fill q scale v s)
    unfolding extract_xyzw extract_wxyz extract_w extract_x extract_flags
    extract-encode temperature b v h = rw (axis_val-word before (word v after) 0 v h refl refl)
    extract-encode compass_heading b v h = rw (axis_val-word before (word v after) 0 v h refl refl)
    extract-encode act_class b (x, y) h = rw (
      flag_val-byte before (x ∷ y ∷ after) 0 x refl,
      flag_val-byte before (x ∷ y ∷ after) 1 y refl,
    )
    extract-encode ang_pos true v h =
        let ys = word v.x (word v.y (word v.z (word v.w after))) in
        rw (
          axis_val-word before ys 0 v.x h.1 refl refl,
          axis_val-word before ys 2 v.y h.2 refl refl,
          axis_val-word before ys 4 v.z h.3 refl refl,
          axis_val-word before ys 6 v.w h.0 refl refl,
        )
    extract-encode ang_pos false v h =
        let ys = word v.w (word v.x (word v.y (word v.z after))) in
        rw (
          axis_val-word before ys 0 v.w h.0 refl refl,
          axis_val-word before ys 2 v.x h.1 refl refl,
          axis_val-word before ys 4 v.y h.2 refl refl,
          axis_val-word before ys 6 v.z h.3 refl refl,
        )
    extract-encode acceleration b v h = extract_xyz-encode v h
    extract-encode acc_no_gravity b v h = extract_xyz-encode v h
    extract-encode angular_velocity b v h = extract_xyz-encode v h
    extract-encode magnetometer b v h = extract_xyz-encode v h
    extract-encode inclination b v h = extract_xyz-encode v h

  -- If a packet of a recognized format is packed from sections, of which that of the quantity holds
  -- the bytes of some values in range and each present one before it has the size of its field,
  -- then the quantity's getter returns 0 and sets exactly the quantity's coordinates, to the values
  -- divided by the scale of the field.
  pub read-pack :
      (q : Quantity) (format scale : ℕ) (c : Sections) (rest : List ℕ) (v : Values q)
      (s : MultiAxisSensor Float) {fs : List Field}
      → layout format ≡ some fs
      → Carries q (encode q (format == 1) v) scale fs (all c)
      → InRange q v
      → read quotient q (pack format c rest) s ≡ some (success, fill q scale v s)
  unfolding finish
  read-pack q format scale c rest v s {fs} known carried range =
      read_lem quotient q p s
      ∙ ap₂ (λ l d. finish l s (extract quotient q (format == 1) d s)) located split
      ∙ extract-encode place.before (place.after ++ rest) s scale q (format == 1) v range
    where
      p : Packet
      p = pack format c rest

      place : Lies q (encode q (format == 1) v) scale fs (all c) 0
      place = lies 0 carried

      located : locate q p ≡ at (pos (length place.before)) scale
      located =
          let start : 0 + length place.before ≡ length place.before = omega arith in
          locate-eq-describe q p
          ∙ ap (λ o. found q o (flag_list (all c))) known
          ∙ place.located
          ∙ ap (λ o. at (pos o) scale) start

      split : p.me_data ≡ place.before ++ (encode q (format == 1) v ++ (place.after ++ rest))
      split = rw (place.split, append_assoc, append_assoc)
