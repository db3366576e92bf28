-- ===== src/Fire/Pages.antt =====
-- What `fire` shows: the flame one step on, in the buffer and on a page of the screen.
use builds.Base.{
  ℕ, zero, suc, ◌+◌, ◌-◌, ◌*◌, ◌≤◌, ◌<◌, ◌≡◌, refl, ap, ◌∙◌, sym, arith, ltb, lt→ltb, le→ltb,
  if◌then◌else◌, Memory, update, ◌⊎◌, inl, inr,
}
use native.Mathlib.Decide.{dec_lt, ℕ_discrete}
use builds.Fire.{buffer, screen1, screen2, cooled, burn, fire, frame, frames, clear_pages}
use builds.Fire.Flame.{Stores, Stores-map, burn-Stores, feed-Stores, ember}

-- The flame one step on: 23 rows of cooled cells, then two rows of embers.
unfoldable pub flame : (ℕ → ℕ) → Memory → ℕ → ℕ
flame noise m k = if ltb k 920 then cooled m (buffer + k) else ember (noise (k - 920))

abbrev burnt : ℕ → Memory → Memory
burnt screenbase m = burn (24 * 40) screenbase buffer m

burnt-Stores :
    (screenbase : ℕ) (m : Memory)
    → buffer + 1001 ≤ screenbase
    → Stores m (burnt screenbase m) screenbase buffer 960 (λ k. cooled m (buffer + k))
burnt-Stores screenbase m h = burn-Stores 960 screenbase buffer m (omega arith)

fed-Stores :
    (noise : ℕ → ℕ) (screenbase : ℕ) (m : Memory)
    → buffer + 1001 ≤ screenbase
    → Stores
        (burnt screenbase m)
        (fire noise screenbase m)
        (screenbase + 920)
        (buffer + 920)
        80
        (λ k. ember (noise k))
unfolding fire
fed-Stores noise screenbase m h =
    Stores-map (λ k bound. ap (λ i. ember (noise i)) (omega arith))
      (feed-Stores noise 80 0 (screenbase + 920) (buffer + 920) (burnt screenbase m) (omega arith))

-- With a page that starts past the buffer and the cell after it, the first 1000 cells of the buffer
-- and of the page after `fire` are the same: those of the flame one step on.
pub fire-flame :
    (noise : ℕ → ℕ) (screenbase k : ℕ) (m : Memory)
    → buffer + 1001 ≤ screenbase
    → k < 1000
    → (fire noise screenbase m (buffer + k) ≡ flame noise m k)
      × (fire noise screenbase m (screenbase + k) ≡ flame noise m k)
unfolding flame
fire-flame noise screenbase k m h bound =
    let old = burnt-Stores screenbase m h in
    let fed = fed-Stores noise screenbase m h in
    elim (dec_lt k 920) [
      | yes above ↦ rw (lt→ltb k 920 above) (
        fed.elsewhere (buffer + k) (inl (omega arith)) (inl (omega arith))
            ∙ old.in_buffer k (omega arith),
        fed.elsewhere (screenbase + k) (inr (omega arith)) (inl (omega arith))
            ∙ old.in_page k (omega arith),
      )
      | no below ↦ rw (le→ltb k 920 (omega arith)) (
        ap (fire noise screenbase m) (omega arith) ∙ fed.in_buffer (k - 920) (omega arith),
        ap (fire noise screenbase m) (omega arith) ∙ fed.in_page (k - 920) (omega arith),
      )
    ]

-- With a page that starts past the buffer and the cell after it, `fire` changes nothing but the 1000 cells of the buffer and of the page.
pub fire-elsewhere :
    (noise : ℕ → ℕ) (screenbase i : ℕ) (m : Memory)
    → buffer + 1001 ≤ screenbase
    → (i < buffer) ⊎ (buffer + 1000 ≤ i)
    → (i < screenbase) ⊎ (screenbase + 1000 ≤ i)
    → fire noise screenbase m i ≡ m i
fire-elsewhere noise screenbase i m h p q =
    let old = burnt-Stores screenbase m h in
    let fed = fed-Stores noise screenbase m h in
    fed.elsewhere i (omega arith) (omega arith) ∙ old.elsewhere i (omega arith) (omega arith)

-- The cells of the flame are characters of growing brightness, below 0x40.
unfoldable pub IsFlame : Memory → Type 0
IsFlame m = (k : ℕ) → k < 1000 → m (buffer + k) < 0x40

IsFlame-at : (m : Memory) (p : ℕ) → IsFlame m → buffer ≤ p → p < buffer + 1000 → m p < 0x40
unfolding IsFlame
IsFlame-at m p h low high =
    let e : buffer + (p - buffer) ≡ p = omega arith in rw (sym e) (h (p - buffer) (omega arith))

cooled-bound :
    (m : Memory) (p : ℕ)
    → m (p + 40 - 1) < 0x40
    → m (p + 40) < 0x40
    → m (p + 41) < 0x40
    → cooled m p < 0x40
unfolding cooled
cooled-bound m p left below right = ground arith

flame-bound :
    (noise : ℕ → ℕ) (k : ℕ) (m : Memory)
    → noise (k - 920) < 256
    → IsFlame m
    → flame noise m k < 0x40
unfolding flame
flame-bound noise k m noisy h = elim (dec_lt k 920) [
  | yes above ↦ rw (lt→ltb k 920 above) (
      cooled-bound m (buffer + k) (IsFlame-at m _ h (omega arith) (omega arith))
        (IsFlame-at m _ h (omega arith) (omega arith))
        (IsFlame-at m _ h (omega arith) (omega arith)))
  | no below ↦ rw (le→ltb k 920 (omega arith)) (omega arith)
]

-- `fire` keeps the flame's cells below 0x40.
fire-IsFlame :
    (noise : ℕ → ℕ) (screenbase : ℕ) (m : Memory)
    → buffer + 1001 ≤ screenbase
    → ((n : ℕ) → noise n < 256)
    → IsFlame m
    → IsFlame (fire noise screenbase m)
unfolding IsFlame
fire-IsFlame noise screenbase m apart noisy h k bound =
    let (e, _) = fire-flame noise screenbase k m apart bound in
    rw (e) (flame-bound noise k m (noisy (k - 920)) h)

-- With noise that is a byte, a frame keeps the flame's cells below 0x40, if they are so before. Then each
-- of the 1000 cells of the first page is that of the flame one step on, and each of the second page and of
-- the buffer that of the flame two steps on.
pub frame-IsFlame :
    (noise noise' : ℕ → ℕ) (k : ℕ) (m : Memory)
    → ((n : ℕ) → noise n < 256)
    → ((n : ℕ) → noise' n < 256)
    → IsFlame m
    → k < 1000
    → IsFlame (frame noise noise' m)
      × (frame noise noise' m (screen1 + k) ≡ flame noise m k)
      × (frame noise noise' m (screen2 + k) ≡ flame noise' (fire noise screen1 m) k)
      × (frame noise noise' m (buffer + k) ≡ flame noise' (fire noise screen1 m) k)
unfolding frame
frame-IsFlame noise noise' k m noisy noisy' h bound =
    let (_, first) = fire-flame noise screen1 k m (omega arith) bound in
    let (kept, second) = fire-flame noise' screen2 k (fire noise screen1 m) (omega arith) bound in
    let page =
      fire-elsewhere noise' screen2 (screen1 + k) (fire noise screen1 m) (omega arith) (omega arith)
        (omega arith) in
    (
      fire-IsFlame noise' screen2 _ (omega arith) noisy'
          (fire-IsFlame noise screen1 m (omega arith) noisy h),
      page ∙ first,
      second,
      kept,
    )

clear_pages-kept :
    (n i colorram yellow : ℕ) (m : Memory) (p : ℕ)
    → p < buffer + i
    → i + n ≤ 0x400
    → 0x800 ≤ colorram
    → clear_pages n i colorram yellow m p ≡ m p
unfolding clear_pages update
clear_pages-kept zero i colorram yellow m p below room apart = refl
clear_pages-kept (suc n) i colorram yellow m p below room apart =
    clear_pages-kept n (i + 1) colorram yellow _ p (omega arith) (omega arith) apart ∙ ground arith

clear_pages-zero :
    (n i colorram yellow : ℕ) (m : Memory) (p : ℕ)
    → buffer + i ≤ p
    → p < buffer + i + n
    → i + n ≤ 0x400
    → 0x800 ≤ colorram
    → clear_pages n i colorram yellow m p ≡ 0
unfolding clear_pages update
clear_pages-zero zero i colorram yellow m p low high room apart = absurd (omega arith)
clear_pages-zero (suc n) i colorram yellow m p low high room apart =
    elim (ℕ_discrete p (i + buffer)) [
      | yes here ↦
          clear_pages-kept n (i + 1) colorram yellow _ p (omega arith) (omega arith) apart
          ∙ ground arith
      | no further ↦
          clear_pages-zero n (i + 1) colorram yellow _ p (omega arith) (omega arith) (omega arith)
            apart
    ]

frames-IsFlame :
    (noise noise' : ℕ → ℕ → ℕ) (left : ℕ) (m : Memory)
    → ((r n : ℕ) → noise r n < 256)
    → ((r n : ℕ) → noise' r n < 256)
    → IsFlame m
    → IsFlame (frames noise noise' left m)
unfolding frames
frames-IsFlame noise noise' zero m noisy noisy' h = h
frames-IsFlame noise noise' (suc left) m noisy noisy' h =
    let (kept, _, _, _) =
      frame-IsFlame (noise 0) (noise' 0) 0 m (noisy 0) (noisy' 0) h (omega arith) in
    frames-IsFlame (λ r. noise (suc r)) (λ r. noise' (suc r)) left _ (λ r. noisy (suc r))
      (λ r. noisy' (suc r)) kept

-- From the pages that `main` clears, whatever the memory held, and with noise that is a byte, every round of
-- the main loop leaves the flame's cells below 0x40.
pub frames-clear_pages :
    (noise noise' : ℕ → ℕ → ℕ) (left colorram yellow : ℕ) (m : Memory)
    → ((r n : ℕ) → noise r n < 256)
    → ((r n : ℕ) → noise' r n < 256)
    → 0x800 ≤ colorram
    → IsFlame (frames noise noise' left (clear_pages 0x400 0 colorram yellow m))
unfolding IsFlame
frames-clear_pages noise noise' left colorram yellow m noisy noisy' apart =
    frames-IsFlame noise noise' left _ noisy noisy' cold
  where
    cold : IsFlame (clear_pages 0x400 0 colorram yellow m)
    cold k bound =
        rw
          (clear_pages-zero 0x400 0 colorram yellow m (buffer + k) (omega arith) (omega arith)
            (omega arith) apart)
          (omega arith)
