-- ===== src/Directories/Tests.antt =====
-- A disk with two files and a directory, and instances.
use builds.Base.{
  ℕ, ◌≡◌, refl, arith, ltb, ◌==◌, if◌then◌else◌, Bool, true, false, none, some, List, [], ◌∷◌,
}
use builds.Directories.{
  Kind, regular, directory, other, Files, unread_directory, directory_heading, file_name,
  read_entries, go_to, print_each, leave, printdir, enumerate,
}
use builds.Directories.Listing.{IsLawful, Tree, closed, opened, nil, cons, height, heights, dirs_in}
use builds.Directories.Devices.{
  Devices, last, absent, present, depth, device_lines, enumerate-Devices,
}

-- Directory 0 has the files 10 and 11, the directory 1, and a directory 7 that cannot be opened; devices
-- 8 and 9 are a drive with a disk and one without.
abbrev disk_entries : Bool → List (Kind × ℕ)
disk_entries true = (regular, 20) ∷ []
disk_entries false =
    (regular, 10) ∷ (directory, 1) ∷ (other, 30) ∷ (regular, 11) ∷ (directory, 7) ∷ []

abbrev disk : Files
disk = record {
  Name = ℕ;
  Dir = Bool;
  chdir = λ name d. if name == 0 then some false else if name == 1 then some true else none;
  getcwd = λ d. if d then 1 else 0;
  readdir = disk_entries;
  getfirstdevice = 8;
  getnextdevice = λ n. if ltb n 9 then 9 else 255;
  getdevicedir = λ n. if ltb n 9 then some 0 else none;
}

chdir-getcwd : (d d' : Bool) → disk.chdir (disk.getcwd d) d' ≡ some d
chdir-getcwd true d' = refl
chdir-getcwd false d' = refl

disk-IsLawful : IsLawful disk
disk-IsLawful = record { chdir-getcwd = chdir-getcwd; getnextdevice-later = λ n h. ground arith }

abbrev disk_tree : Tree disk 0 true
unfolding dirs_in
disk_tree = opened false refl (cons (opened true refl nil) (cons (closed refl) nil))

abbrev drives : Devices disk true 8
drives = present 8 0 (omega arith) refl disk_tree (absent 9 (omega arith) refl last)

disk_lines :
    printdir disk 2 0 true
    ≡ some (
      directory_heading 0
          ∷ file_name 10
          ∷ file_name 11
          ∷ directory_heading 1
          ∷ file_name 20
          ∷ unread_directory 7
          ∷ [],
      true,
    )
unfolding printdir leave print_each read_entries go_to
disk_lines = refl

enumerate-Devices_example : enumerate disk 256 2 true ≡ some (device_lines drives, true)
unfolding depth height heights dirs_in
enumerate-Devices_example = enumerate-Devices disk disk-IsLawful 2 drives (omega arith)
