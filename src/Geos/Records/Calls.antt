-- ===== src/Geos/Records/Calls.antt =====
-- Which overlays overlay-demo.c for GEOS calls, and what is in memory then.
use builds.Base.{
  ℕ, zero, suc, ◌+◌, ◌-◌, ◌<◌, ◌≡◌, ◌≢◌, refl, ap, arith, ◌==◌, Bool-cases, inl, inr, List, [], ◌∷◌,
  Memory,
}
use mathlib.Core.Path.{subst}
use builds.Geos.Records.{
  Kernal, Failure, opening, pointing, reading, closing, Machine, Outcome, ok, failed, ◌>>=◌,
  checked, open_file, point, read, call_overlay, overlay, close_file, overlay_demo,
}

-- The area of the overlays has the code of the overlay `n`.
abbrev pub HasCode : ℕ → ℕ → (ℕ → ℕ → ℕ) → ℕ → Memory → Type 0
HasCode addr size code n memory = (i : ℕ) → i < size → memory (addr + i) ≡ code n i

-- What the program relies on: a successful PointRecord makes a record the current one, and a successful
-- ReadRecord brings the code of the current record into the area.
pub record IsLawful (K : Kernal) (addr size : ℕ) (code : ℕ → ℕ → ℕ) : Type 0 where
  pub current : K.World → ℕ
  pub point-current :
      (n : ℕ) (w : K.World) → (K.point_record n w).0 ≡ 0 → current (K.point_record n w).1 ≡ n
  pub read-HasCode :
      (memory : Memory) (w : K.World)
      → (K.read_record memory w).0 ≡ 0
      → HasCode addr size code (current w) (K.read_record memory w).1

-- The overlays up to one, the last one first.
unfoldable pub down_from : ℕ → List ℕ
down_from zero = []
down_from (suc n) = suc n ∷ down_from n

-- The overlays that have been called when a call fails.
abbrev pub called_before : Failure → List ℕ
called_before opening = []
called_before (pointing n) = down_from (n - 1)
called_before (reading n) = down_from (n - 1)
called_before closing = down_from 3

module _ (K : Kernal) (addr size : ℕ) (code : ℕ → ℕ → ℕ) (L : IsLawful K addr size code) where
  -- The overlays `called`, and no others, have been called, each with its code in the area.
  abbrev pub HaveCode : List ℕ → List (ℕ × Memory) → Type 0
  HaveCode [] [] = Unit {0}
  HaveCode (n ∷ called) ((k, memory) ∷ calls) =
      (k ≡ n) × HasCode addr size code n memory × HaveCode called calls
  HaveCode [] (c ∷ calls) = ⊥
  HaveCode (n ∷ called) [] = ⊥

  -- The call that a failure names has given an error, and left the world.
  abbrev pub HasCause : Failure → K.World → Type 0
  HasCause opening w' =
      (w : K.World) × ((K.open_record_file w).0 ≢ 0) × ((K.open_record_file w).1 ≡ w')
  HasCause (pointing n) w' =
      (w : K.World) × ((K.point_record n w).0 ≢ 0) × ((K.point_record n w).1 ≡ w')
  HasCause (reading n) w' =
      (memory : Memory) × (w : K.World) × (L.current w ≡ n)
      × ((K.read_record memory w).0 ≢ 0)
      × ((K.read_record memory w).2 ≡ w')
  HasCause closing w' =
      (w : K.World) × ((K.close_record_file w).0 ≢ 0) × ((K.close_record_file w).1 ≡ w')

  abbrev pub Ensures : List ℕ → Outcome K → Type 0
  Ensures called (ok m) = HaveCode called m.calls
  Ensures called (failed e m) = HaveCode (called_before e) m.calls × HasCause e m.world

  -- The same, with a record current, or read.
  abbrev EnsuresAt : (P : Machine K → Type 0) → List ℕ → Outcome K → Type 0
  EnsuresAt P called (ok m) = HaveCode called m.calls × P m
  EnsuresAt P called (failed e m) = HaveCode (called_before e) m.calls × HasCause e m.world

  bind-EnsuresAt :
      (P Q : Machine K → Type 0) (called called' : List ℕ) (o : Outcome K)
      (f : Machine K → Outcome K)
      → EnsuresAt P called o
      → ((m : Machine K) → HaveCode called m.calls → P m → EnsuresAt Q called' (f m))
      → EnsuresAt Q called' (o >>= f)
  bind-EnsuresAt P Q called called' (ok m) f (h, p) go = go m h p
  bind-EnsuresAt P Q called called' (failed e m) f h go = h

  checked-EnsuresAt :
      (P : Machine K → Type 0) (called : List ℕ) (e : Failure) (error : ℕ) (m : Machine K)
      → HaveCode called m.calls
      → called_before e ≡ called
      → (error ≡ 0 → P m)
      → (error ≢ 0 → HasCause e m.world)
      → EnsuresAt P called (checked K e error m)
  checked-EnsuresAt P called e error m h same p cause = elim (Bool-cases (error == 0)) [
    | inl done ↦ rw (done) (h, p (ground arith))
    | inr wrong ↦ rw (wrong) (rw (same) h, cause (ground arith))
  ]

  abbrev Anything : Machine K → Type 0
  Anything m = Unit {0}

  abbrev IsPointed : ℕ → Machine K → Type 0
  IsPointed n m = L.current m.world ≡ n

  abbrev IsRead : ℕ → Machine K → Type 0
  IsRead n m = HasCode addr size code n m.memory

  overlay-EnsuresAt :
      (n : ℕ) (m : Machine K)
      → HaveCode (down_from n) m.calls
      → EnsuresAt Anything (down_from (suc n)) (overlay K (suc n) m)
  unfolding overlay point read call_overlay down_from
  overlay-EnsuresAt n m h =
      let before : down_from (suc n - 1) ≡ down_from n = ap down_from (omega arith) in
      bind-EnsuresAt (IsRead (suc n)) Anything (down_from n) (down_from (suc n))
        (point K (suc n) m >>= read K (suc n)) (call_overlay K (suc n))
        (bind-EnsuresAt (IsPointed (suc n)) (IsRead (suc n)) (down_from n) (down_from n)
          (point K (suc n) m) (read K (suc n))
          (checked-EnsuresAt (IsPointed (suc n)) (down_from n) (pointing (suc n)) _ _ h before
            (L.point-current (suc n) m.world) (λ wrong. (m.world, wrong, refl)))
          (λ m' h' at.
            checked-EnsuresAt (IsRead (suc n)) (down_from n) (reading (suc n)) _ _ h' before
              (λ got.
                subst (λ k. HasCode addr size code k (K.read_record m'.memory m'.world).1) at
                  (L.read-HasCode m'.memory m'.world got))
              (λ wrong. (m'.memory, m'.world, at, wrong, refl))))
        (λ m' h' code. ((refl, code, h'), tt))

  Ensures-end : (called : List ℕ) (o : Outcome K) → EnsuresAt Anything called o → Ensures called o
  Ensures-end called (ok m) (h, p) = h
  Ensures-end called (failed e m) h = h

  -- Whatever calls of the kernal fail: each call of an overlay finds the code of that overlay in the area. If
  -- the program does not report a failure, the three overlays have been called in order, each once. If it
  -- does, the call that it names has just failed, which is a read of that record where it names one,
  -- and the overlays before that have been called, and no others.
  pub overlay_demo-Ensures :
      (memory : Memory) (w : K.World)
      → Ensures
          (3 ∷ 2 ∷ 1 ∷ [])
          (overlay_demo K (record { memory = memory; world = w; calls = [] }))
  unfolding overlay_demo open_file close_file down_from
  overlay_demo-Ensures memory w =
      let m : Machine K = record { memory = memory; world = w; calls = [] } in
      let o₀ = open_file K m in
      let o₁ = o₀ >>= overlay K 1 in
      let o₂ = o₁ >>= overlay K 2 in
      let o₃ = o₂ >>= overlay K 3 in
      let e₀ =
        checked-EnsuresAt Anything [] opening (K.open_record_file w).0
          (record m { world = (K.open_record_file w).1 }) tt refl (λ h. tt)
          (λ wrong. (w, wrong, refl)) in
      let e₁ =
        bind-EnsuresAt Anything Anything [] (down_from 1) o₀ (overlay K 1) e₀
          (λ m h p. overlay-EnsuresAt 0 m h) in
      let e₂ =
        bind-EnsuresAt Anything Anything (down_from 1) (down_from 2) o₁ (overlay K 2) e₁
          (λ m h p. overlay-EnsuresAt 1 m h) in
      let e₃ =
        bind-EnsuresAt Anything Anything (down_from 2) (down_from 3) o₂ (overlay K 3) e₂
          (λ m h p. overlay-EnsuresAt 2 m h) in
      Ensures-end (down_from 3) (o₃ >>= close_file K) (
        bind-EnsuresAt Anything Anything (down_from 3) (down_from 3) o₃ (close_file K) e₃ (λ m h p.
          checked-EnsuresAt Anything (down_from 3) closing _ _ h refl (λ e. tt)
            (λ wrong. (m.world, wrong, refl))))
