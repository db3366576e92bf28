-- ===== src/Overlays/Code.antt =====
-- What is in the area of an overlay of multidemo.c when it is called.
use builds.Base.{
  ℕ, zero, suc, ◌+◌, ◌-◌, ◌*◌, ◌^◌, ◌<◌, ◌≤◌, ◌≡◌, refl, ◌⊎◌, arith, ltb, u8, u16, Bool, true,
  false, Bool-cases, inl, inr, List, [], ◌∷◌, Memory,
}
use mathlib.Core.Path.{subst}
use builds.Overlays.{
  Em, Machine, load_overlay, store_overlay, pages, copy_overlays, call_overlay, multi_demo,
  machine_at_start,
}
use builds.Overlays.Loading.{
  IsLawful, HasCode, IsSound, load_overlay-IsLoaded, pages_lem, store_overlay-IsSound,
  IsLoaded-IsSound, ltb→ge,
}

module _ (E : Em) (L : IsLawful E) (cbm_load : ℕ → Memory → Bool × Memory) (addr size : ℕ → ℕ)
    (code : ℕ → ℕ → ℕ) (small : (k : ℕ) → size k + 255 < 2 ^ 16)
    (loads : (k : ℕ) (memory : Memory)
      → (cbm_load k memory).0 ≡ true
      → HasCode addr size code k (cbm_load k memory).1) where
  abbrev Sound : ℕ → Machine E → Type 0
  Sound = IsSound E L cbm_load addr size code small loads

  abbrev CopyFrom : ℕ → ℕ → ℕ → Machine E → Machine E
  CopyFrom = copy_overlays E cbm_load addr size

  abbrev loading : ℕ → Machine E → Machine E × Bool
  loading = load_overlay E cbm_load addr size

  abbrev is_full : ℕ → ℕ → Bool
  is_full num page = ltb (u16 (E.em_pagecount + 2 ^ 16 - page)) (pages E cbm_load addr size num)

  copy-full :
      (left num page : ℕ) (m : Machine E)
      → is_full num page ≡ true
      → CopyFrom (suc left) num page m ≡ CopyFrom left (u8 (num + 1)) page m
  unfolding copy_overlays
  copy-full left num page m full = simp (copy_overlays, full)

  copy-failed :
      (left num page : ℕ) (m : Machine E)
      → is_full num page ≡ false
      → (loading (num + 1) m).1 ≡ false
      → CopyFrom (suc left) num page m ≡ CopyFrom left (u8 (num + 1)) page (loading (num + 1) m).0
  unfolding copy_overlays
  copy-failed left num page m room e = simp (copy_overlays, room, e)

  copy-stored :
      (left num page : ℕ) (m : Machine E)
      → is_full num page ≡ false
      → (loading (num + 1) m).1 ≡ true
      → CopyFrom (suc left) num page m
        ≡ CopyFrom left
            (u8 (num + 1))
            (u16 (page + pages E cbm_load addr size num))
            (store_overlay E cbm_load addr size num page (loading (num + 1) m).0)
  unfolding copy_overlays
  copy-stored left num page m room e = simp (copy_overlays, room, e)

  -- All pages that are set lie in extended memory.
  abbrev pub IsStored : Machine E → Type 0
  IsStored m = (top : ℕ) × (top ≤ E.em_pagecount) × Sound top m

  copy_overlays-IsStored :
      (left num page : ℕ) (m : Machine E)
      → num + left < 100
      → page ≤ num * 256
      → page ≤ E.em_pagecount
      → Sound page m
      → IsStored (CopyFrom left num page m)
  unfolding copy_overlays
  copy_overlays-IsStored zero num page m few low fits s = (page, fits, s)
  copy_overlays-IsStored (suc left) num page m few low fits s =
      let bound = L.pagecount_bound in
      let (enough, most) = pages_lem E L cbm_load addr size code small loads num in
      let next : u8 (num + 1) ≡ num + 1 = omega arith in
      let l = load_overlay-IsLoaded E L cbm_load addr size code small loads page (num + 1) m s in
      let s' =
        IsLoaded-IsSound E L cbm_load addr size code small loads page (num + 1) m
          (loading (num + 1) m) l s in
      elim (Bool-cases (is_full num page)) [
        | inl full ↦
            rw (copy-full left num page m full, next)
              (copy_overlays-IsStored left (num + 1) page m (omega arith) (omega arith) fits s)
        | inr room ↦
            let free : pages E cbm_load addr size num ≤ u16 (E.em_pagecount + 2 ^ 16 - page) =
              ltb→ge _ _ room in
            elim (Bool-cases (loading (num + 1) m).1) [
              | inr failed ↦
                  rw (copy-failed left num page m room failed, next)
                    (copy_overlays-IsStored left (num + 1) page (loading (num + 1) m).0
                      (omega arith) (omega arith) fits s')
              | inl loaded ↦
                  let whole : u16 (page + pages E cbm_load addr size num)
                      ≡ page + pages E cbm_load addr size num =
                    omega arith in
                  let back : (num + 1) - 1 ≡ num = omega arith in
                  let here : HasCode addr size code num (loading (num + 1) m).0.memory =
                    subst (λ k. HasCode addr size code k (loading (num + 1) m).0.memory) back
                      (l.has_code loaded) in
                  rw (copy-stored left num page m room loaded, next, whole)
                    (copy_overlays-IsStored left (num + 1) (page + pages E cbm_load addr size num) _
                      (omega arith) (omega arith) (omega arith)
                      (store_overlay-IsSound E L cbm_load addr size code small loads num page
                        (loading (num + 1) m).0 (omega arith) (omega arith) s' here))
            ]
      ]

  -- Of the overlays, the last one first, each has been called in its turn, with its code in its area, or else
  -- cbm_load has failed for it; no other has been called.
  abbrev pub HaveCode : List ℕ → List (ℕ × Memory) → Type 0
  HaveCode [] calls = calls ≡ []
  HaveCode (n ∷ ns) calls =
      ((memory : Memory) × (before : List (ℕ × Memory)) × (calls ≡ (n, memory) ∷ before)
        × HasCode addr size code (n - 1) memory
        × HaveCode ns before)
      ⊎ ((memory : Memory) × ((cbm_load (n - 1) memory).0 ≡ false) × HaveCode ns calls)

  call_overlay-HaveCode :
      (top num : ℕ) (m : Machine E) (ns : List ℕ) (calls : List (ℕ × Memory))
      → Sound top m
      → HaveCode ns calls
      → Sound top (call_overlay E cbm_load addr size num (m, calls)).0
        × HaveCode (num ∷ ns) (call_overlay E cbm_load addr size num (m, calls)).1
  unfolding call_overlay
  call_overlay-HaveCode top num m ns calls s h =
      let l = load_overlay-IsLoaded E L cbm_load addr size code small loads top num m s in
      let s' =
        IsLoaded-IsSound E L cbm_load addr size code small loads top num m (loading num m) l s in
      elim (Bool-cases (loading num m).1) [
        | inl loaded ↦
            simp (call_overlay, loaded)
              (s', inl ((loading num m).0.memory, calls, refl, l.has_code loaded, h))
        | inr failed ↦ simp (call_overlay, failed) (s', inr (m.memory, l.fails failed, h))
      ]

  calls-HaveCode :
      (top : ℕ) (m : Machine E)
      → Sound top m
      → HaveCode
          (3 ∷ 2 ∷ 1 ∷ [])
          (call_overlay E cbm_load addr size 3
            (call_overlay E cbm_load addr size 2 (call_overlay E cbm_load addr size 1 (m, [])))).1
  calls-HaveCode top m s =
      let (s₁, h₁) = call_overlay-HaveCode top 1 m [] [] s refl in
      let (s₂, h₂) = call_overlay-HaveCode top 2 _ (1 ∷ []) _ s₁ h₁ in
      let (s₃, h₃) = call_overlay-HaveCode top 3 _ (2 ∷ 1 ∷ []) _ s₂ h₂ in h₃

  start-IsSound : (memory : Memory) (em : E.State) → Sound 0 (machine_at_start E memory em)
  start-IsSound memory em = record { below = λ k p e. cc; stored = λ k p i e hi. cc }

  -- For overlays of at most 65280 bytes, if cbm_load, when it succeeds, brings the code of the overlay into
  -- its area: the three overlays are called in order, each once and with its code in its area, but
  -- for those for which cbm_load fails, with some memory. So it
  -- is whether there is a driver of extended memory or not, whichever overlays fit its pages or
  -- fail to load, and whatever the memories hold at the start.
  pub multi_demo-HaveCode :
      (driver : Bool) (memory : Memory) (em : E.State)
      → HaveCode
          (3 ∷ 2 ∷ 1 ∷ [])
          (multi_demo E cbm_load addr size driver (machine_at_start E memory em)).1
  unfolding multi_demo
  multi_demo-HaveCode true memory em =
      let (top, fits, s) =
        copy_overlays-IsStored 3 0 0 (machine_at_start E memory em) (omega arith) (omega arith)
          (omega arith) (start-IsSound memory em) in
      calls-HaveCode top _ s
  multi_demo-HaveCode false memory em =
      calls-HaveCode 0 (machine_at_start E memory em) (start-IsSound memory em)
