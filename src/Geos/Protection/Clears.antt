-- ===== src/Geos/Protection/Clears.antt =====
-- What rmvprot.c changes on disks.
use builds.Base.{
  ℕ, ◌≡◌, ◌≢◌, refl, ap, ◌∙◌, sym, arith, ◌==◌, Bool, true, false, Bool-cases, ◌⊎◌, inl, inr, List,
  [], ◌∷◌,
}
use native.Mathlib.Decide.{ℕ_discrete}
use builds.Geos.Protection.{
  Click, ok, disk, cancel, Disks, Ending, returned, desktop, waiting, off_gs_dtype, clear_type,
  remove, remove_protection,
}

-- What the program relies on: disks have headers, of which a call reads or writes that of the disk in the drive,
-- if it succeeds, and no other; a failing call and another disk in the drive write no header.
pub record IsLawful (D : Disks) : Type 1 where
  pub inserted : D.World → ℕ
  pub header : D.World → ℕ → ℕ → ℕ
  pub get-header :
      (w : D.World) → (D.get_dir_head w).0 ≡ 0 → (D.get_dir_head w).1 ≡ header w (inserted w)
  pub get-inserted : (w : D.World) → inserted (D.get_dir_head w).2 ≡ inserted w
  pub get-same : (w : D.World) → header (D.get_dir_head w).2 ≡ header w
  pub put-header :
      (h : ℕ → ℕ) (w : D.World)
      → (D.put_dir_head h w).0 ≡ 0
      → header (D.put_dir_head h w).1 (inserted w) ≡ h
  pub put-inserted : (h : ℕ → ℕ) (w : D.World) → inserted (D.put_dir_head h w).1 ≡ inserted w
  pub put-other :
      (h : ℕ → ℕ) (w : D.World) (k : ℕ)
      → k ≢ inserted w
      → header (D.put_dir_head h w).1 k ≡ header w k
  pub put-failed :
      (h : ℕ → ℕ) (w : D.World)
      → (D.put_dir_head h w).0 ≢ 0
      → header (D.put_dir_head h w).1 ≡ header w
  pub change-same : (w : D.World) → header (D.change_disk w) ≡ header w

clear_type_self : (header : ℕ → ℕ) (i : ℕ) → i ≡ off_gs_dtype → clear_type header i ≡ 0
unfolding clear_type
clear_type_self header i e = ground arith

clear_type-other : (header : ℕ → ℕ) (i : ℕ) → i ≢ off_gs_dtype → clear_type header i ≡ header i
unfolding clear_type
clear_type-other header i e = ground arith

module _ (D : Disks) (L : IsLawful D) where
  -- No byte of a header differs, but for the type of a disk that has become 0.
  abbrev pub OnlyCleared : D.World → D.World → Type 0
  OnlyCleared w w' =
      (k i : ℕ) → (L.header w' k i ≡ L.header w k i) ⊎ ((i ≡ off_gs_dtype) × (L.header w' k i ≡ 0))

  -- The disk in the drive is not protected.
  abbrev pub IsFree : D.World → Type 0
  IsFree w = L.header w (L.inserted w) off_gs_dtype ≡ 0

  -- A call on a disk has failed, and left the world.
  abbrev pub HasFailed : D.World → Type 0
  HasFailed w' =
      ((w : D.World) × ((D.get_dir_head w).0 ≢ 0) × ((D.get_dir_head w).2 ≡ w'))
      ⊎ ((h : ℕ → ℕ) × (w : D.World) × ((D.put_dir_head h w).0 ≢ 0) × ((D.put_dir_head h w).1 ≡ w'))

  -- What holds at the end, for whether there is a CANCEL and what should hold of the disk in the drive.
  abbrev pub Ends : D.World → Bool → (D.World → Type 0) → Ending D.World → Type 0
  Ends w quits P (returned w') = (quits ≡ true) × OnlyCleared w w' × P w'
  Ends w quits P (desktop w') = HasFailed w' × OnlyCleared w w'
  Ends w quits P (waiting w') = (quits ≡ false) × OnlyCleared w w' × P w'

  -- Whether the user clicks CANCEL.
  abbrev pub quits : List Click → Bool
  quits [] = false
  quits (ok ∷ clicks) = quits clicks
  quits (disk ∷ clicks) = quits clicks
  quits (cancel ∷ clicks) = true

  abbrev pub IsFreeIf : Bool → D.World → Type 0
  IsFreeIf true w = IsFree w
  IsFreeIf false w = Unit {0}

  OnlyCleared-same : (w w' : D.World) → L.header w' ≡ L.header w → OnlyCleared w w'
  OnlyCleared-same w w' e k i = inl (ap (λ (h : ℕ → ℕ → ℕ). h k i) e)

  OnlyCleared-trans : (a b c : D.World) → OnlyCleared a b → OnlyCleared b c → OnlyCleared a c
  OnlyCleared-trans a b c p q k i = ground (arith, p k i, q k i)

  -- The header that `case OK` writes.
  abbrev written : D.World → ℕ → ℕ
  written w = clear_type (D.get_dir_head w).1

  abbrev after_put : D.World → ℕ × D.World
  after_put w = D.put_dir_head (written w) (D.get_dir_head w).2

  put-clears :
      (w : D.World)
      → (D.get_dir_head w).0 ≡ 0
      → (after_put w).0 ≡ 0
      → OnlyCleared w (after_put w).1 × IsFree (after_put w).1
  put-clears w got wrote =
      let w₁ = (D.get_dir_head w).2 in
      let here : L.inserted w₁ ≡ L.inserted w = L.get-inserted w in
      let now = L.put-header (written w) w₁ wrote in
      let before = L.get-header w got in
      let changed : (k i : ℕ)
          → (L.header (after_put w).1 k i ≡ L.header w k i)
            ⊎ ((i ≡ off_gs_dtype) × (L.header (after_put w).1 k i ≡ 0)) =
        λ k i. elim (ℕ_discrete k (L.inserted w₁)) [
          | no other ↦ inl (
              ap (λ (h : ℕ → ℕ). h i) (L.put-other (written w) w₁ k other)
              ∙ ap (λ (h : ℕ → ℕ → ℕ). h k i) (L.get-same w))
          | yes same ↦
              let byte : L.header (after_put w).1 k i ≡ written w i =
                ap (λ (k : ℕ). L.header (after_put w).1 k i) same ∙ ap (λ (h : ℕ → ℕ). h i) now in
              elim (ℕ_discrete i off_gs_dtype) [
                | yes type ↦ inr (type, byte ∙ clear_type_self (D.get_dir_head w).1 i type)
                | no kept ↦ inl (
                    byte
                    ∙ clear_type-other (D.get_dir_head w).1 i kept
                    ∙ ap (λ (h : ℕ → ℕ). h i) before
                    ∙ ap (λ (k : ℕ). L.header w k i) (sym (same ∙ here)))
              ]
        ] in
      (
        changed,
        ap (λ (k : ℕ). L.header (after_put w).1 k off_gs_dtype) (L.put-inserted (written w) w₁)
            ∙ ap (λ (h : ℕ → ℕ). h off_gs_dtype) now
            ∙ clear_type_self (D.get_dir_head w).1 off_gs_dtype refl,
      )

  remove-full :
      (go_on : D.World → Ending D.World) (w : D.World)
      → (D.get_dir_head w).0 ≡ 0
      → (after_put w).0 ≡ 0
      → remove D go_on w ≡ go_on (after_put w).1
  unfolding remove
  remove-full go_on w got wrote = simp (remove, got, wrote)

  remove-unwritten :
      (go_on : D.World → Ending D.World) (w : D.World)
      → ((D.get_dir_head w).0 == 0) ≡ true
      → ((after_put w).0 == 0) ≡ false
      → remove D go_on w ≡ desktop (after_put w).1
  unfolding remove
  remove-unwritten go_on w got failed = simp (remove, got, failed)

  remove-unread :
      (go_on : D.World → Ending D.World) (w : D.World)
      → ((D.get_dir_head w).0 == 0) ≡ false
      → remove D go_on w ≡ desktop (D.get_dir_head w).2
  unfolding remove
  remove-unread go_on w failed = simp (remove, failed)

  -- Whether an OK came since the last DISK, before the first CANCEL.
  abbrev pub freed : Bool → List Click → Bool
  freed b [] = b
  freed b (ok ∷ clicks) = freed true clicks
  freed b (disk ∷ clicks) = freed false clicks
  freed b (cancel ∷ clicks) = b

  ended :
      (b : Bool) (clicks : List Click) (start w : D.World)
      → OnlyCleared start w
      → IsFreeIf b w
      → Ends start (quits clicks) (IsFreeIf (freed b clicks)) (remove_protection D clicks w)
  unfolding remove_protection
  ended b [] start w only free = (refl, only, free)
  ended b (cancel ∷ clicks) start w only free = (refl, only, free)
  ended b (disk ∷ clicks) start w only free =
      ended false clicks start (D.change_disk w)
        (OnlyCleared-trans start w (D.change_disk w) only (OnlyCleared-same w _ (L.change-same w)))
        tt
  ended b (ok ∷ clicks) start w only free =
      let w₁ = (D.get_dir_head w).2 in
      let read = OnlyCleared-trans start w w₁ only (OnlyCleared-same w w₁ (L.get-same w)) in
      elim (Bool-cases ((D.get_dir_head w).0 == 0)) [
        | inr failed ↦
            rw (remove_protection, remove-unread (remove_protection D clicks) w failed)
              (inl (w, ground arith, refl), read)
        | inl got ↦ elim (Bool-cases ((after_put w).0 == 0)) [
          | inr failed ↦
              rw (remove_protection, remove-unwritten (remove_protection D clicks) w got failed)
                (
                  inr (written w, w₁, ground arith, refl),
                  OnlyCleared-trans start w₁ (after_put w).1 read
                      (OnlyCleared-same w₁ _ (L.put-failed (written w) w₁ (ground arith))),
                )
          | inl wrote ↦
              let (cleared, now) = put-clears w (ground arith) (ground arith) in
              rw
                (
                  remove_protection,
                  remove-full (remove_protection D clicks) w (ground arith) (ground arith),
                )
                (ended true clicks start (after_put w).1
                  (OnlyCleared-trans start w (after_put w).1 only cleared) now)
        ]
      ]

  -- Whatever the user clicks, and whichever calls fail: no byte of a disk's header has changed at the end, but for
  -- the type byte of some, which is 0. The program goes to the desktop only after a call on a disk that
  -- has just failed. Else it returns if there is a CANCEL, and waits if there is none, and the type byte
  -- of the disk in the drive is 0 if an OK came since the last DISK before the CANCEL.
  pub remove_protection-Ends :
      (clicks : List Click) (w : D.World)
      → Ends w (quits clicks) (IsFreeIf (freed false clicks)) (remove_protection D clicks w)
  remove_protection-Ends clicks w = ended false clicks w w (OnlyCleared-same w w refl) tt
