-- ===== src/DiskCopy/Drive.antt =====
-- The drive that the user types in diodemo.c.
use builds.Base.{
  ℕ, ◌+◌, ◌-◌, ◌*◌, ◌≤◌, ◌≡◌, refl, arith, ◌==◌, ==_refl, not, ◌&&◌, if◌then◌else◌, u8, Bool, true,
  false, some, List, [], ◌∷◌, ◌++◌, Bool-cases, inl, inr,
}
use builds.DiskCopy.{typed, ask_from, ask_for_drive}

-- The number that the digits among the keys write in decimal, after `acc`.
unfoldable pub decimal : (ℕ → Bool) → ℕ → List ℕ → ℕ
decimal isdigit acc [] = acc
decimal isdigit acc (c ∷ keys) =
    decimal isdigit (if isdigit c then acc * 10 + (c - 48) else acc) keys

unfoldable pub is_absent : ℕ → List ℕ → Bool
is_absent key [] = true
is_absent key (c ∷ keys) = not (c == key) && is_absent key keys

module _ (isdigit : ℕ → Bool) (enter : ℕ) (from_zero : (c : ℕ) → isdigit c ≡ true → 48 ≤ c)
    (enter-control : isdigit enter ≡ false) where
  typed_lem :
      (acc c : ℕ) → typed isdigit (u8 acc) c ≡ u8 (if isdigit c then acc * 10 + (c - 48) else acc)
  unfolding typed
  typed_lem acc c = elim (Bool-cases (isdigit c)) [
    | inl e ↦ let low = from_zero c e in rw (e) (omega arith)
    | inr e ↦ rw (e) (omega arith)
  ]

  ask_from_lem :
      (keys rest : List ℕ) (acc : ℕ)
      → is_absent enter keys ≡ true
      → ask_from isdigit enter (u8 acc) (keys ++ enter ∷ rest)
        ≡ some (u8 (decimal isdigit acc keys), rest)
  unfolding ask_from decimal is_absent
  ask_from_lem [] rest acc h = rw (typed_lem acc enter, enter-control, ==_refl enter) refl
  ask_from_lem (c ∷ keys) rest acc h =
      let other : (c == enter) ≡ false = ground arith in
      let further : is_absent enter keys ≡ true = ground arith in
      rw (other, typed_lem acc c) (ask_from_lem keys rest _ further)

  -- If `isdigit` holds of no code below that of 0 and not of Enter, then the keys up to the first Enter give the
  -- drive: the number that their digits write, modulo 256. The keys after it are left.
  pub ask_for_drive_lem :
      (keys rest : List ℕ)
      → is_absent enter keys ≡ true
      → ask_for_drive isdigit enter (keys ++ enter ∷ rest)
        ≡ some (u8 (decimal isdigit 0 keys), rest)
  unfolding ask_for_drive
  ask_for_drive_lem keys rest h = ask_from_lem keys rest 0 h
