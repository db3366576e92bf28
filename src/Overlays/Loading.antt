-- ===== src/Overlays/Loading.antt =====
-- What loadoverlay of multidemo.c brings into the area of an overlay, from a file or extended memory.
use builds.Base.{
  ℕ, ◌+◌, ◌-◌, ◌*◌, ◌^◌, ◌<◌, ◌≤◌, ◌≡◌, ◌≢◌, refl, ap, ◌∙◌, sym, arith, ◌==◌, ltb, if◌then◌else◌,
  Bool, true, false, ◌⊎◌, inl, inr, Memory, blit, blit-in, ℤ, pos, negsuc, ltb_ℤ, s16, s16-fits,
}
use native.Mathlib.Decide.{ℕ_discrete}
use builds.Overlays.{Em, Machine, load_overlay, store_overlay, pages}

-- What the program relies on of extended memory: what is copied to its pages can be copied from them, while
-- nothing but pages of it after them is copied to.
pub record IsLawful (E : Em) : Type 0 where
  pub pagecount_bound : E.em_pagecount < 2 ^ 16
  pub copyfrom-copyto :
      (page n i : ℕ) (f : ℕ → ℕ) (s : E.State)
      → page * 256 + n ≤ E.em_pagecount * 256
      → i < n
      → E.em_copyfrom page n (E.em_copyto page n f s) i ≡ f i
  pub copyfrom-copyto_later :
      (page n page' n' i : ℕ) (f : ℕ → ℕ) (s : E.State)
      → page * 256 + n ≤ page' * 256
      → page' * 256 + n' ≤ E.em_pagecount * 256
      → i < n
      → E.em_copyfrom page n (E.em_copyto page' n' f s) i ≡ E.em_copyfrom page n s i

ℤ-cases : (z : ℤ) → ((p : ℕ) × (z ≡ pos p)) ⊎ ((p : ℕ) × (z ≡ negsuc p))
ℤ-cases (pos p) = inl (p, refl)
ℤ-cases (negsuc p) = inr (p, refl)

pub ltb→ge : (a b : ℕ) → ltb a b ≡ false → b ≤ a
ltb→ge a b h = ground arith

-- A page as it is set in the table.
page_new :
    (z : ℤ) (k num page p : ℕ)
    → page < 2 ^ 15
    → k ≡ num
    → (if k == num then s16 (pos page) else z) ≡ pos p
    → p ≡ page
page_new z k num page p few same e =
    let fits : s16 (pos page) ≡ pos page = s16-fits (pos page) (omega arith) (omega arith) in
    ground (arith, fits)

page_old : (z z' : ℤ) (k num p : ℕ) → k ≢ num → (if k == num then z' else z) ≡ pos p → z ≡ pos p
page_old z z' k num p other e = ground arith

-- The area of the overlay `k` has its code.
abbrev pub HasCode : (ℕ → ℕ) → (ℕ → ℕ) → (ℕ → ℕ → ℕ) → ℕ → Memory → Type 0
HasCode addr size code k memory = (i : ℕ) → i < size k → memory (addr k + i) ≡ code k i

module _ (E : Em) (L : IsLawful E) (cbm_load : ℕ → Memory → Bool × Memory) (addr size : ℕ → ℕ)
    (code : ℕ → ℕ → ℕ) (small : (k : ℕ) → size k + 255 < 2 ^ 16)
    (loads : (k : ℕ) (memory : Memory)
      → (cbm_load k memory).0 ≡ true
      → HasCode addr size code k (cbm_load k memory).1) where
  -- The pages that are set lie below `page`, and have the code of their overlays.
  pub record IsSound (page : ℕ) (m : Machine E) : Type 0 where
    pub below : (k p : ℕ) → m.page k ≡ pos p → p * 256 + size k ≤ page * 256
    pub stored :
        (k p i : ℕ) → m.page k ≡ pos p → i < size k → E.em_copyfrom p (size k) m.em i ≡ code k i

  load-memory :
      (num p : ℕ) (m : Machine E)
      → m.page (num - 1) ≡ pos p
      → load_overlay E cbm_load addr size num m ≡ (
        record m {
          memory =
              blit m.memory
                (addr (num - 1))
                (size (num - 1))
                (E.em_copyfrom p (size (num - 1)) m.em);
        },
        true,
      )
  unfolding load_overlay
  load-memory num p m e =
      let sign : ltb_ℤ (pos p) (pos 0) ≡ false = ground arith in simp (load_overlay, e, sign)

  load-file :
      (num p : ℕ) (m : Machine E)
      → m.page (num - 1) ≡ negsuc p
      → load_overlay E cbm_load addr size num m
        ≡ (record m { memory = (cbm_load (num - 1) m.memory).1 }, (cbm_load (num - 1) m.memory).0)
  unfolding load_overlay
  load-file num p m e =
      let sign : ltb_ℤ (negsuc p) (pos 0) ≡ true = ground arith in simp (load_overlay, e, sign)

  -- Loading changes the memory alone, and on success brings the code, from wherever.
  pub record IsLoaded (num : ℕ) (m : Machine E) (r : Machine E × Bool) : Type 0 where
    pub page : r.0.page ≡ m.page
    pub em : r.0.em ≡ m.em
    pub fails : r.1 ≡ false → (cbm_load (num - 1) m.memory).0 ≡ false
    pub has_code : r.1 ≡ true → HasCode addr size code (num - 1) r.0.memory

  pub load_overlay-IsLoaded :
      (page num : ℕ) (m : Machine E)
      → IsSound page m
      → IsLoaded num m (load_overlay E cbm_load addr size num m)
  load_overlay-IsLoaded page num m s = elim (ℤ-cases (m.page (num - 1))) [
    | inl (p, e) ↦ rw (load-memory num p m e) (record {
      page = refl;
      em = refl;
      fails = λ failed. cc;
      has_code = λ ok i h.
          blit-in m.memory (addr (num - 1)) (size (num - 1)) _ i h ∙ s.stored (num - 1) p i e h;
    })
    | inr (p, e) ↦ rw (load-file num p m e) (record {
      page = refl;
      em = refl;
      fails = λ failed. failed;
      has_code = loads (num - 1) m.memory;
    })
  ]

  pub pages_lem :
      (k : ℕ) → (size k ≤ pages E cbm_load addr size k * 256) × (pages E cbm_load addr size k ≤ 256)
  unfolding pages
  pages_lem k = let h = small k in (omega arith, omega arith)

  pub store_overlay-IsSound :
      (num page : ℕ) (m : Machine E)
      → page < 2 ^ 15
      → page + pages E cbm_load addr size num ≤ E.em_pagecount
      → IsSound page m
      → HasCode addr size code num m.memory
      → IsSound
          (page + pages E cbm_load addr size num)
          (store_overlay E cbm_load addr size num page m)
  unfolding store_overlay
  store_overlay-IsSound num page m few inside s here = record {
    below = λ k p e. elim (ℕ_discrete k num) [
      | yes new ↦
          let same : p ≡ page = page_new (m.page k) k num page p few new e in
          let (room, most) = pages_lem num in rw (new, same) (omega arith)
      | no old ↦
          let e' : m.page k ≡ pos p = page_old (m.page k) (s16 (pos page)) k num p old e in
          let b = s.below k p e' in omega arith
    ];
    stored = λ k p i e hi. elim (ℕ_discrete k num) [
      | yes new ↦
          let same : p ≡ page = page_new (m.page k) k num page p few new e in
          let hi' : i < size num = rw (← new) hi in
          let (room, most) = pages_lem num in
          rw (new, same)
            (L.copyfrom-copyto page (size num) i (λ i. m.memory (addr num + i)) m.em (omega arith)
                hi'
              ∙ here i hi')
      | no old ↦
          let e' : m.page k ≡ pos p = page_old (m.page k) (s16 (pos page)) k num p old e in
          let (room, most) = pages_lem num in
          L.copyfrom-copyto_later p (size k) page (size num) i _ m.em (s.below k p e') (omega arith)
            hi
          ∙ s.stored k p i e' hi
    ];
  }

  pub IsLoaded-IsSound :
      (page num : ℕ) (m : Machine E) (r : Machine E × Bool)
      → IsLoaded num m r
      → IsSound page m
      → IsSound page r.0
  IsLoaded-IsSound page num m r l s = record {
    below = λ k p e. s.below k p (ap (λ (f : ℕ → ℤ). f k) (sym l.page) ∙ e);
    stored = λ k p i e hi.
        ap (λ em. E.em_copyfrom p (size k) em i) l.em
        ∙ s.stored k p i (ap (λ (f : ℕ → ℤ). f k) (sym l.page) ∙ e) hi;
  }
