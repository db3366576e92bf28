-- ===== src/Directories/Listing.antt =====
-- What enumdevdir.c prints for a tree of directories, with its description, and that it gets back to
-- the directory that it came from.
use Prim.Native.Nat.{max}
use builds.Base.{ℕ, zero, suc, ◌≤◌, ◌<◌, ◌≡◌, refl, arith, none, some, List, [], ◌∷◌, ◌++◌, map}
use builds.Directories.{
  Kind, regular, directory, other, Files, Line, unread_directory, directory_heading, file_name,
  read_entries, go_to, print_each, leave, printdir, invalid_device,
}

-- The names of the files and of the directories among the entries.
unfoldable pub files_in : {Name : Type 0} → List (Kind × Name) → List Name
files_in [] = []
files_in ((regular, name) ∷ entries) = name ∷ files_in entries
files_in ((directory, name) ∷ entries) = files_in entries
files_in ((other, name) ∷ entries) = files_in entries

unfoldable pub dirs_in : {Name : Type 0} → List (Kind × Name) → List Name
dirs_in [] = []
dirs_in ((regular, name) ∷ entries) = dirs_in entries
dirs_in ((directory, name) ∷ entries) = name ∷ dirs_in entries
dirs_in ((other, name) ∷ entries) = dirs_in entries

read_entries_lem :
    {Name : Type 0} (entries : List (Kind × Name))
    → read_entries entries ≡ (map file_name (files_in entries), dirs_in entries)
unfolding read_entries files_in dirs_in
read_entries_lem [] = refl
read_entries_lem ((regular, name) ∷ entries) = rw (read_entries_lem entries) refl
read_entries_lem ((directory, name) ∷ entries) = rw (read_entries_lem entries) refl
read_entries_lem ((other, name) ∷ entries) = read_entries_lem entries

-- The path that getcwd gives leads back from everywhere, and the next device comes after a device.
pub record IsLawful (F : Files) : Type 0 where
  pub chdir-getcwd : (d d' : F.Dir) → F.chdir (F.getcwd d) d' ≡ some d
  pub getnextdevice-later : (device : ℕ) → device < invalid_device → device < F.getnextdevice device

-- The tree of directories below a name, seen from a directory.
mutual
  pub data Tree (F : Files) : F.Name → F.Dir → Type 0 where
    closed : {name : F.Name} {d : F.Dir} → F.chdir name d ≡ none → Tree F name d
    opened :
        {name : F.Name} {d : F.Dir} (d' : F.Dir)
        → F.chdir name d ≡ some d'
        → Trees F (dirs_in (F.readdir d')) d'
        → Tree F name d

  pub data Trees (F : Files) : List F.Name → F.Dir → Type 0 where
    nil : {d : F.Dir} → Trees F [] d
    cons :
        {name : F.Name} {names : List F.Name} {d : F.Dir}
        → Tree F name d
        → Trees F names d
        → Trees F (name ∷ names) d

unfoldable mutual
  pub height : {F : Files} {name : F.Name} {d : F.Dir} → Tree F name d → ℕ
  height (closed e) = 1
  height (opened d' e ts) = suc (heights ts)

  pub heights : {F : Files} {names : List F.Name} {d : F.Dir} → Trees F names d → ℕ
  heights nil = 0
  heights (cons t ts) = max (height t) (heights ts)

-- The lines of a tree: its path, its files, then its directories in turn.
unfoldable mutual
  pub lines : {F : Files} {name : F.Name} {d : F.Dir} → Tree F name d → List (Line F.Name)
  lines {F} {name} (closed e) = unread_directory name ∷ []
  lines {F} (opened d' e ts) =
      directory_heading (F.getcwd d') ∷ (map file_name (files_in (F.readdir d')) ++ lines_each ts)

  pub lines_each :
      {F : Files} {names : List F.Name} {d : F.Dir} → Trees F names d → List (Line F.Name)
  lines_each nil = []
  lines_each (cons t ts) = lines t ++ lines_each ts

module _ (F : Files) (L : IsLawful F) where
  go_to-getcwd : (d d' : F.Dir) → go_to F (F.getcwd d) d' ≡ d
  unfolding go_to
  go_to-getcwd d d' = rw (go_to, L.chdir-getcwd d d') refl

  mutual
    unfolding printdir height lines leave print_each heights lines_each

    printdir-height :
        {name : F.Name} {d : F.Dir} (t : Tree F name d) (fuel : ℕ)
        → height t ≤ fuel
        → printdir F fuel name d ≡ some (lines t, d)
    printdir-height (closed e) zero enough = absurd (omega arith)
    printdir-height (closed e) (suc fuel) enough = rw (printdir, e) refl
    printdir-height (opened d' e ts) zero enough = absurd (omega arith)
    printdir-height {d = d} (opened d' e ts) (suc fuel) enough =
        rw
          (
            printdir,
            e,
            read_entries_lem (F.readdir d'),
            print_each-heights ts fuel (omega arith),
            go_to-getcwd d d',
          )
          refl

    print_each-heights :
        {names : List F.Name} {d : F.Dir} (ts : Trees F names d) (fuel : ℕ)
        → heights ts ≤ fuel
        → print_each F (printdir F fuel) names d ≡ some (lines_each ts, d)
    print_each-heights nil fuel enough = refl
    print_each-heights (cons t ts) fuel enough =
        rw
          (
            print_each,
            printdir-height t fuel (omega arith),
            print_each-heights ts fuel (omega arith),
          )
          refl

  -- For a tree of directories below a name, and fuel for its height: printdir prints the lines of the
  -- tree, which are each directory's path and files and then its directories in turn, and ends in
  -- the directory that it was called in.
  pub printdir-lines :
      {name : F.Name} {d : F.Dir} (t : Tree F name d) (fuel : ℕ)
      → height t ≤ fuel
      → printdir F fuel name d ≡ some (lines t, d)
  printdir-lines = printdir-height
