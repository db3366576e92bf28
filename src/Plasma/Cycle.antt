-- ===== src/Plasma/Cycle.antt =====
-- The main loop of plasma.c: what the two pages show, round by round.
use builds.Base.{ℕ, zero, suc, ◌+◌, ◌*◌, ◌<◌, ◌≡◌, refl, ◌∙◌, sym, arith, u8, inl}
use builds.Plasma.{page1, page2, Plasma, doplasma, rounds}
use builds.Plasma.Picture.{plasma_at, HasBytes, doplasma-picture, doplasma-elsewhere}

-- The phases of `t` are those of `s`, `n` calls of `doplasma` on.
record Ahead (n : ℕ) (s t : Plasma) : Type 0 where
  pub c1_a : t.c1_a ≡ u8 (s.c1_a + 3 * n)
  pub c1_b : t.c1_b ≡ u8 (s.c1_b + 251 * n)
  pub c2_a : t.c2_a ≡ u8 (s.c2_a + 2 * n)
  pub c2_b : t.c2_b ≡ u8 (s.c2_b + 253 * n)

abbrev one_round : Plasma → Plasma
one_round s = doplasma page2 (doplasma page1 s)

rounds-suc : (n : ℕ) (s : Plasma) → rounds (suc n) s ≡ one_round (rounds n s)
unfolding rounds
rounds-suc zero s = refl
rounds-suc (suc n) s = rounds-suc n (one_round s)

doplasma-Ahead : (scrn n : ℕ) (s t : Plasma) → Ahead n s t → Ahead (suc n) s (doplasma scrn t)
unfolding doplasma
doplasma-Ahead scrn n s t h = record {
  c1_a = rw (h.c1_a) (omega arith);
  c1_b = rw (h.c1_b) (omega arith);
  c2_a = rw (h.c2_a) (omega arith);
  c2_b = rw (h.c2_b) (omega arith);
}

rounds-Ahead : (n : ℕ) (s : Plasma) → HasBytes s → Ahead (n + n) s (rounds n s)
unfolding rounds
rounds-Ahead zero s bytes = record {
  c1_a = omega arith;
  c1_b = omega arith;
  c2_a = omega arith;
  c2_b = omega arith;
}
rounds-Ahead (suc n) s bytes =
    let twice : suc n + suc n ≡ suc (suc (n + n)) = omega arith in
    rw (twice, rounds-suc n s)
      (doplasma-Ahead page2 _ s _ (doplasma-Ahead page1 _ s _ (rounds-Ahead n s bytes)))

Ahead-HasBytes : (n : ℕ) (s t : Plasma) → Ahead n s t → HasBytes t
Ahead-HasBytes n s t h = record {
  c1_a = rw (h.c1_a) (omega arith);
  c1_b = rw (h.c1_b) (omega arith);
  c2_a = rw (h.c2_a) (omega arith);
  c2_b = rw (h.c2_b) (omega arith);
}

-- The same picture comes again after 256 calls.
plasma_at-Ahead :
    (n n' r c : ℕ) (s t t' : Plasma)
    → n' ≡ n + 256
    → Ahead n s t
    → Ahead n' s t'
    → plasma_at t' r c ≡ plasma_at t r c
unfolding plasma_at
plasma_at-Ahead n n' r c s t t' turn h h' =
    let e1 : t'.c1_a ≡ t.c1_a = h'.c1_a ∙ omega arith ∙ sym h.c1_a in
    let e2 : t'.c1_b ≡ t.c1_b = h'.c1_b ∙ omega arith ∙ sym h.c1_b in
    let e3 : t'.c2_a ≡ t.c2_a = h'.c2_a ∙ omega arith ∙ sym h.c2_a in
    let e4 : t'.c2_b ≡ t.c2_b = h'.c2_b ∙ omega arith ∙ sym h.c2_b in rw (e1, e2, e3, e4)

-- With phases that are bytes, after any round of the main loop page 1 shows the picture of the phases at the
-- start of the round, and page 2 that of the phases one call of `doplasma` later.
pub rounds-pages :
    (n : ℕ) (s : Plasma) (r c : ℕ)
    → HasBytes s
    → r < 25
    → c < 40
    → ((rounds (suc n) s).memory (page1 + r * 40 + c) ≡ plasma_at (rounds n s) r c)
      × ((rounds (suc n) s).memory (page2 + r * 40 + c)
          ≡ plasma_at (doplasma page1 (rounds n s)) r c)
rounds-pages n s r c bytes hr hc =
    let now = rounds-Ahead n s bytes in
    let next = doplasma-Ahead page1 _ s _ now in
    rw (rounds-suc n s) (
      doplasma-elsewhere page2 _ _ (inl (omega arith))
          ∙ doplasma-picture page1 (rounds n s) r c (Ahead-HasBytes _ s _ now) hr hc,
      doplasma-picture page2 _ r c (Ahead-HasBytes _ s _ next) hr hc,
    )

-- With phases that are bytes, both pages show after a round what they show 128 rounds later.
rounds-period :
    (n : ℕ) (s : Plasma) (r c : ℕ)
    → HasBytes s
    → r < 25
    → c < 40
    → ((rounds (suc (n + 128)) s).memory (page1 + r * 40 + c)
        ≡ (rounds (suc n) s).memory (page1 + r * 40 + c))
      × ((rounds (suc (n + 128)) s).memory (page2 + r * 40 + c)
          ≡ (rounds (suc n) s).memory (page2 + r * 40 + c))
rounds-period n s r c bytes hr hc =
    let (first, second) = rounds-pages n s r c bytes hr hc in
    let (first', second') = rounds-pages (n + 128) s r c bytes hr hc in
    let now = rounds-Ahead n s bytes in
    let later = rounds-Ahead (n + 128) s bytes in
    (
      first' ∙ plasma_at-Ahead _ _ r c s _ _ (omega arith) now later ∙ sym first,
      second'
          ∙ plasma_at-Ahead _ _ r c s _ _ (omega arith) (doplasma-Ahead page1 _ s _ now)
              (doplasma-Ahead page1 _ s _ later)
          ∙ sym second,
    )
