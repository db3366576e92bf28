-- ===== src/Directories.antt =====
-- bin/cc65-snapshot-win32/samples/enumdevdir.c: the devices with their directories and files.
-- The calls of the library on devices and directories are the interface `Files`. The directory that the
-- program is in is explicit state, and what is printed is a list of lines.
pub mod Listing
pub mod Devices
mod Tests
use builds.Base.{
  ℕ, zero, suc, ◌+◌, ◌==◌, if◌then◌else◌, u8, Bool, true, false, Option, none, some, List, [], ◌∷◌,
  ◌++◌,
}

-- The kinds of entry that `_DE_ISREG` and `_DE_ISDIR` tell apart.
pub data Kind : Type 0 where
  regular : Kind
  directory : Kind
  other : Kind

-- The calls of the library. A path is passed by its text; `chdir` has no result where the call fails.
-- `getcwd` and `opendir (".")` do not fail, as the program takes for granted.
pub record Files : Type 1 where
  pub Name : Type 0
  pub Dir : Type 0
  pub chdir : Name → Dir → Option Dir
  pub getcwd : Dir → Name
  pub readdir : Dir → List (Kind × Name)
  pub getfirstdevice : ℕ
  pub getnextdevice : ℕ → ℕ
  pub getdevicedir : ℕ → Option Name

-- What is printed.
pub data Line (Name : Type 0) : Type 0 where
  unread_directory : Name → Line Name
  directory_heading : Name → Line Name
  file_name : Name → Line Name
  device_heading : ℕ → Line Name
  not_available : Line Name

-- The loop over the directory: the lines of the files, and the names in `subdirs`.
pub read_entries : {Name : Type 0} → List (Kind × Name) → List (Line Name) × List Name
read_entries [] = ([], [])
read_entries ((regular, name) ∷ entries) =
    let (lines, subdirs) = read_entries entries in (file_name name ∷ lines, subdirs)
read_entries ((directory, name) ∷ entries) =
    let (lines, subdirs) = read_entries entries in (lines, name ∷ subdirs)
read_entries ((other, name) ∷ entries) = read_entries entries

abbrev pub invalid_device : ℕ
invalid_device = 255

-- What a call prints, and the directory that it leaves the program in; none where the fuel is spent.
abbrev pub Printed : Files → Type 0
Printed F = Option (List (Line F.Name) × F.Dir)

-- The output goes on after a first part.
abbrev pub after : {A B : Type 0} → List A → Option (List A × B) → Option (List A × B)
after lines none = none
after lines (some (more, d)) = some (lines ++ more, d)

module _ (F : Files) where
  -- A call of chdir whose result is ignored.
  pub go_to : F.Name → F.Dir → F.Dir
  go_to name d = elim (F.chdir name d) [ some d' ↦ d' | none ↦ d ]

  -- The loop over `subdirs`, for a function that prints one of them.
  pub print_each : (F.Name → F.Dir → Printed F) → List F.Name → F.Dir → Printed F
  print_each print [] d = some ([], d)
  print_each print (name ∷ names) d = elim (print name d) [
    | none ↦ none
    | some (lines, d') ↦ after lines (print_each print names d')
  ]

  -- The last call of printdir: back to `olddir`.
  pub leave : F.Name → Printed F → Printed F
  leave olddir none = none
  leave olddir (some (lines, d)) = some (lines, go_to olddir d)

  pub printdir : ℕ → F.Name → F.Dir → Printed F
  printdir zero newdir d = none
  printdir (suc fuel) newdir d = elim (F.chdir newdir d) [
    | none ↦ some (unread_directory newdir ∷ [], d)
    | some d' ↦
        let (lines, subdirs) = read_entries (F.readdir d') in
        leave (F.getcwd d)
          (after (directory_heading (F.getcwd d') ∷ lines) (print_each (printdir fuel) subdirs d'))
  ]

  -- The body of the loop of main.
  pub print_device : ℕ → ℕ → F.Dir → Printed F
  print_device depth device d = elim (F.getdevicedir device) [
    | none ↦ some (device_heading device ∷ not_available ∷ [], d)
    | some name ↦ after (device_heading device ∷ []) (printdir depth name d)
  ]

  -- The loop of main, with fuel.
  pub print_devices : ℕ → ℕ → ℕ → F.Dir → Printed F
  print_devices zero depth device d = none
  print_devices (suc fuel) depth device d = elim (device == invalid_device) [
    | true ↦ some ([], d)
    | false ↦ elim (print_device depth device d) [
      | none ↦ none
      | some (lines, d') ↦ after lines (print_devices fuel depth (u8 (F.getnextdevice device)) d')
    ]
  ]

  pub enumerate : ℕ → ℕ → F.Dir → Printed F
  enumerate fuel depth d = print_devices fuel depth (u8 F.getfirstdevice) d
