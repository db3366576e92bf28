-- ===== src/Geos/Protection.antt =====
-- bin/cc65-snapshot-win32/samples/geos/rmvprot.c: a dialog that removes the write protection of disks.
-- The kernal's calls on disks are the interface `Disks`; a header is a function of the offset. What the user
-- clicks is a list, and the desktop does not return.
pub mod Clears
mod Tests
use builds.Base.{ℕ, ◌==◌, if◌then◌else◌, Bool, true, false, List, [], ◌∷◌}

-- The icons of the main dialog: OK, DISK and, for all other results, CANCEL.
pub data Click : Type 0 where
  ok : Click
  disk : Click
  cancel : Click

-- An error code, the header in curDirHead and the disks after GetDirHead; an error code and the disks after
-- PutDirHead; and the disks after the dialog that asks for another one.
pub record Disks : Type 1 where
  pub World : Type 0
  pub get_dir_head : World → ℕ × (ℕ → ℕ) × World
  pub put_dir_head : (ℕ → ℕ) → World → ℕ × World
  pub change_disk : World → World

-- How main ends: by its `return`, in the desktop after an error, or with the clicks.
pub data Ending (World : Type 0) : Type 0 where
  returned : World → Ending World
  desktop : World → Ending World
  waiting : World → Ending World

-- OFF_GS_DTYPE
abbrev pub off_gs_dtype : ℕ
off_gs_dtype = 189

-- `curDirHead[OFF_GS_DTYPE] = 0`
pub clear_type : (ℕ → ℕ) → ℕ → ℕ
clear_type header i = if i == off_gs_dtype then 0 else header i

module _ (D : Disks) where
  -- `case OK`, with how main goes on.
  pub remove : (D.World → Ending D.World) → D.World → Ending D.World
  remove go_on w =
      let (error, header, w') = D.get_dir_head w in
      let (put_error, w'') = D.put_dir_head (clear_type header) w' in
      if error == 0 then (if put_error == 0 then go_on w'' else desktop w'') else desktop w'

  pub remove_protection : List Click → D.World → Ending D.World
  remove_protection [] w = waiting w
  remove_protection (ok ∷ clicks) w = remove (remove_protection clicks) w
  remove_protection (disk ∷ clicks) w = remove_protection clicks (D.change_disk w)
  remove_protection (cancel ∷ clicks) w = returned w
