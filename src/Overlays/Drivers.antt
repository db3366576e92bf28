-- ===== src/Overlays/Drivers.antt =====
-- Which driver of extended memory multidemo.c loads.
use builds.Base.{
  ℕ, zero, suc, ◌+◌, ◌≤◌, ◌<◌, ◌≡◌, refl, ap, ◌∙◌, sym, arith, ◌==◌, if◌then◌else◌, u8, Bool, true,
  false, ◌⊎◌, ◌&&◌, some, List, [], ◌∷◌, ◌++◌, Bool-cases, inl, inr, length, get_elem?, drop,
  length-append, lt→ltb, le→ltb,
}
use mathlib.Core.List.{append-nil, append_assoc}
use native.Mathlib.Decide.{dec_lt, ℕ_discrete}
use builds.Overlays.{Found, memorize, search_directory, try_drivers, load_em_driver}

-- The names of the files that are drivers, in the order of the directory.
unfoldable pub drivers_in {ℓ} : {Name : Type ℓ} → (Name → Bool) → List (Bool × Name) → List Name
drivers_in is_emd [] = []
drivers_in is_emd ((is_file, name) ∷ dir) =
    if is_file && is_emd name then name ∷ drivers_in is_emd dir else drivers_in is_emd dir

-- None of the names can be loaded.
abbrev pub AllFail {ℓ} : {Name : Type ℓ} → (Name → Bool) → List Name → Type ℓ
AllFail loads [] = Unit
AllFail loads (name ∷ names) = (loads name ≡ false) × AllFail loads names

-- All names have been tried, and have failed; or those up to one that is loaded, and that one alone of them
-- has not failed.
abbrev pub IsTried {ℓ} : {Name : Type ℓ} → (Name → Bool) → List Name → List Name × Bool → Type ℓ
IsTried {Name = Name} loads names r =
    ((r ≡ (names, false)) × AllFail loads names)
    ⊎ ((before : List Name) × (name : Name) × (after : List Name) × (names ≡ before ++ name ∷ after)
        × AllFail loads before
        × (loads name ≡ true)
        × (r ≡ (before ++ name ∷ [], true)))

-- The tries, by recursion on the names.
unfoldable tries {ℓ} : {Name : Type ℓ} → (Name → Bool) → List Name → List Name × Bool
tries loads [] = ([], false)
tries loads (name ∷ names) =
    let rest = tries loads names in
    if loads name then (name ∷ [], true) else (name ∷ rest.0, rest.1)

tries-IsTried {ℓ} :
    {Name : Type ℓ} (loads : Name → Bool) (names : List Name)
    → IsTried loads names (tries loads names)
unfolding tries
tries-IsTried loads [] = inl (refl, tt)
tries-IsTried loads (name ∷ names) = elim (Bool-cases (loads name)) [
  | inl loaded ↦ inr ([], name, names, refl, tt, loaded, simp (loaded))
  | inr failed ↦ elim (tries-IsTried loads names) [
    | inl (e, all) ↦ inl (simp (failed, e), (failed, all))
    | inr (before, last, after, split, all, loaded, e) ↦ inr (
      name ∷ before,
      last,
      after,
      ap (λ l. name ∷ l) split,
      (failed, all),
      loaded,
      simp (failed, e),
    )
  ]
]

get_elem?-append {ℓ} :
    {A : Type ℓ} (xs ys : List A) (i : ℕ) → i < length xs → get_elem? (xs ++ ys) i ≡ get_elem? xs i
get_elem?-append [] ys i h = absurd (omega arith)
get_elem?-append (x ∷ xs) ys zero h = refl
get_elem?-append (x ∷ xs) ys (suc i) h = get_elem?-append xs ys i (omega arith)

get_elem?-append_at {ℓ} :
    {A : Type ℓ} (xs : List A) (y : A) (ys : List A) → get_elem? (xs ++ y ∷ ys) (length xs) ≡ some y
get_elem?-append_at [] y ys = refl
get_elem?-append_at (x ∷ xs) y ys = get_elem?-append_at xs y ys

drop-get_elem? {ℓ} :
    {A : Type ℓ} (xs : List A) (i : ℕ) (x : A)
    → some x ≡ get_elem? xs i
    → drop i xs ≡ x ∷ drop (suc i) xs
drop-get_elem? [] i x h = cc
drop-get_elem? (y ∷ xs) zero x h = cc
drop-get_elem? (y ∷ xs) (suc i) x h = drop-get_elem? xs i x h

drop-length {ℓ} : {A : Type ℓ} (xs : List A) (i : ℕ) → length xs ≤ i → drop i xs ≡ []
drop-length [] zero h = refl
drop-length [] (suc i) h = refl
drop-length (x ∷ xs) zero h = absurd (omega arith)
drop-length (x ∷ xs) (suc i) h = drop-length xs i (omega arith)

-- The names found are those of a list, in the first places.
record Lists {ℓ} {Name : Type ℓ} (f : Found Name) (names : List Name) : Type ℓ where
  pub count : f.max ≡ length names
  pub named : (i : ℕ) → i < length names → some (f.emd i) ≡ get_elem? names i

module _ {ℓ} {Name : Type ℓ} (is_emd loads : Name → Bool) where
  Lists-append :
      (f : Found Name) (names : List Name) (name : Name)
      → length names < 255
      → Lists f names
      → Lists
          (record { emd = λ i. if i == f.max then name else f.emd i; max = u8 (f.max + 1) })
          (names ++ name ∷ [])
  Lists-append f names name few h =
      let len = length-append names (name ∷ []) in
      let count = h.count in
      record {
        count = omega arith;
        named = λ i hi. elim (ℕ_discrete i f.max) [
          | yes e ↦
              let new : (i == f.max) ≡ true = ground arith in
              rw (new) (
                sym (
                  ap (get_elem? (names ++ name ∷ [])) (e ∙ count)
                  ∙ get_elem?-append_at names name []))
          | no ne ↦
              let old : (i == f.max) ≡ false = ground arith in
              rw (old)
                (h.named i (omega arith) ∙ sym (get_elem?-append names (name ∷ []) i (omega arith)))
        ];
      }

  search_directory-Lists :
      (dir : List (Bool × Name)) (f : Found Name) (names : List Name)
      → length names + length (drivers_in is_emd dir) < 256
      → Lists f names
      → Lists (search_directory is_emd dir f) (names ++ drivers_in is_emd dir)
  unfolding search_directory memorize drivers_in
  search_directory-Lists [] f names few h = rw (append-nil names) h
  search_directory-Lists ((is_file, name) ∷ dir) f names few h =
      elim (Bool-cases (is_file && is_emd name)) [
        | inl found ↦
            let few' = rw (found) at few in
            let len = length-append names (name ∷ []) in
            rw (found, sym (append_assoc names (name ∷ []) (drivers_in is_emd dir)))
              (search_directory-Lists dir _ (names ++ name ∷ []) (omega arith)
                (Lists-append f names name (omega arith) h))
        | inr skipped ↦
            let few' = rw (skipped) at few in
            rw (skipped) (search_directory-Lists dir f names (omega arith) h)
      ]

  try_drivers-tries :
      (fuel : ℕ) (f : Found Name) (names : List Name) (num : ℕ)
      → Lists f names
      → f.max < 256
      → f.max < fuel + num
      → num ≤ f.max
      → try_drivers fuel loads f num ≡ tries loads (drop num names)
  unfolding try_drivers tries
  try_drivers-tries zero f names num h few enough low = absurd (omega arith)
  try_drivers-tries (suc fuel) f names num h few enough low =
      let count = h.count in
      elim (dec_lt num f.max) [
        | yes lt ↦
            let next : u8 (num + 1) ≡ suc num = omega arith in
            let rest = try_drivers-tries fuel f names (suc num) h few (omega arith) (omega arith) in
            rw
              (
                lt→ltb num f.max lt,
                drop-get_elem? names num (f.emd num) (h.named num (omega arith)),
                next,
                rest,
              )
              refl
        | no end ↦ rw (le→ltb num f.max (omega arith), drop-length names num (omega arith)) refl
      ]

  -- With fewer than 256 drivers in the directory: em_load_driver is called with their names in the order of
  -- the directory, up to the first that can be loaded, and the result is that one is loaded; or with
  -- all of them, if none can be loaded, and the result is that none is.
  pub load_em_driver_lem :
      (rubbish : Name) (dir : List (Bool × Name))
      → length (drivers_in is_emd dir) < 256
      → IsTried loads (drivers_in is_emd dir) (load_em_driver is_emd loads rubbish (some dir))
  unfolding load_em_driver
  load_em_driver_lem rubbish dir few =
      let h =
        search_directory-Lists dir (record { emd = λ i. rubbish; max = 0 }) [] (omega arith)
          (record { count = refl; named = λ i hi. absurd (omega arith) }) in
      let count = h.count in
      rw
        (try_drivers-tries 256 _ (drivers_in is_emd dir) 0 h (omega arith) (omega arith)
          (omega arith))
        (tries-IsTried loads (drivers_in is_emd dir))
