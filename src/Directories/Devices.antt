-- ===== src/Directories/Devices.antt =====
-- What enumdevdir.c prints for all devices.
use Prim.Native.Nat.{max}
use builds.Base.{
  ℕ, zero, suc, ◌+◌, ◌≤◌, ◌<◌, ◌≡◌, refl, arith, ◌==◌, u8, false, none, some, List, [], ◌∷◌, ◌++◌,
}
use builds.Directories.{
  Files, Line, device_heading, not_available, print_device, print_devices, enumerate,
  invalid_device,
}
use builds.Directories.Listing.{IsLawful, Tree, height, lines, printdir-lines}

-- The devices from one on, with their trees, seen from a directory.
pub data Devices (F : Files) (d : F.Dir) : ℕ → Type 0 where
  last : Devices F d invalid_device
  absent :
      (device : ℕ)
      → device < invalid_device
      → F.getdevicedir device ≡ none
      → Devices F d (F.getnextdevice device)
      → Devices F d device
  present :
      (device : ℕ) (name : F.Name)
      → device < invalid_device
      → F.getdevicedir device ≡ some name
      → Tree F name d
      → Devices F d (F.getnextdevice device)
      → Devices F d device

unfoldable pub count : {F : Files} {d : F.Dir} {device : ℕ} → Devices F d device → ℕ
count last = 0
count (absent device below e more) = suc (count more)
count (present device name below e t more) = suc (count more)

-- The greatest height of their trees.
unfoldable pub depth : {F : Files} {d : F.Dir} {device : ℕ} → Devices F d device → ℕ
depth last = 0
depth (absent device below e more) = depth more
depth (present device name below e t more) = max (height t) (depth more)

unfoldable pub device_lines :
    {F : Files} {d : F.Dir} {device : ℕ} → Devices F d device → List (Line F.Name)
device_lines last = []
device_lines (absent device below e more) =
    device_heading device ∷ not_available ∷ device_lines more
device_lines (present device name below e t more) =
    device_heading device ∷ (lines t ++ device_lines more)

-- A device is an unsigned char.
next_device : {F : Files} {d : F.Dir} {device : ℕ} → Devices F d device → u8 device ≡ device
next_device last = refl
next_device (absent device below e more) = omega arith
next_device (present device name below e t more) = omega arith

module _ (F : Files) (L : IsLawful F) where
  print_devices-depth :
      (fuel n : ℕ) {device : ℕ} {d : F.Dir} (v : Devices F d device)
      → count v < fuel
      → depth v ≤ n
      → print_devices F fuel n device d ≡ some (device_lines v, d)
  unfolding print_devices print_device count depth device_lines
  print_devices-depth zero n v enough deep = absurd (omega arith)
  print_devices-depth (suc fuel) n last enough deep = refl
  print_devices-depth (suc fuel) n {d = d} (absent device below e more) enough deep =
      let running : (device == invalid_device) ≡ false = ground arith in
      let next = next_device more in
      rw
        (
          print_devices,
          running,
          print_device,
          e,
          next,
          print_devices-depth fuel n more (omega arith) deep,
        )
        refl
  print_devices-depth (suc fuel) n {d = d} (present device name below e t more) enough deep =
      let running : (device == invalid_device) ≡ false = ground arith in
      let next = next_device more in
      rw
        (
          print_devices,
          running,
          print_device,
          e,
          printdir-lines F L t n (omega arith),
          next,
          print_devices-depth fuel n more (omega arith) (omega arith),
        )
        refl

  count-bound :
      {d : F.Dir} {device : ℕ} (v : Devices F d device) → count v + device ≤ invalid_device
  unfolding count
  count-bound last = omega arith
  count-bound (absent device below e more) =
      let later = L.getnextdevice-later device below in let rest = count-bound more in omega arith
  count-bound (present device name below e t more) =
      let later = L.getnextdevice-later device below in let rest = count-bound more in omega arith

  -- For devices whose directories are trees of at most the height that the fuel of printdir covers:
  -- 256 rounds are enough for main, which prints each device with the lines of its tree, or that it is
  -- not available, and ends in the directory that it began in.
  pub enumerate-Devices :
      (n : ℕ) {d : F.Dir} (v : Devices F d F.getfirstdevice)
      → depth v ≤ n
      → enumerate F 256 n d ≡ some (device_lines v, d)
  unfolding enumerate
  enumerate-Devices n v deep =
      let few = count-bound v in
      rw (enumerate, next_device v) (print_devices-depth 256 n v (omega arith) deep)
