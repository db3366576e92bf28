-- ===== src/Fire/Flame.antt =====
-- What `fire` does to the buffer and to a page of the screen.
use builds.Base.{
  ℕ, zero, suc, ◌+◌, ◌-◌, ◌≤◌, ◌<◌, ◌≡◌, ◌≢◌, refl, ap, ◌∙◌, arith, u8, ◌>>>◌, Memory, update,
  update_self, ◌⊎◌, inl, inr,
}
use builds.Fire.{cooled, burn, feed}

-- A value is stored in a cell of the buffer and of the page, as both loops do.
abbrev both : Memory → ℕ → ℕ → ℕ → Memory
both m buf screen c = update (update m buf c) screen c

both-buf : (m : Memory) (buf screen c : ℕ) → both m buf screen c buf ≡ c
unfolding update
both-buf m buf screen c = ground arith

both-screen : (m : Memory) (buf screen c : ℕ) → both m buf screen c screen ≡ c
both-screen m buf screen c = update_self _ screen c

both-ne : (m : Memory) (buf screen c i : ℕ) → i ≢ buf → i ≢ screen → both m buf screen c i ≡ m i
unfolding update
both-ne m buf screen c i p q = ground arith

-- The memory after a loop that has stored `value k` in the `k`-th of `n` cells of both.
pub record Stores (m m' : Memory) (screen buf n : ℕ) (value : ℕ → ℕ) : Type 0 where
  pub in_buffer : (k : ℕ) → k < n → m' (buf + k) ≡ value k
  pub in_page : (k : ℕ) → k < n → m' (screen + k) ≡ value k
  pub elsewhere : (i : ℕ) → (i < buf) ⊎ (buf + n ≤ i) → (i < screen) ⊎ (screen + n ≤ i) → m' i ≡ m i

Stores-zero : (m : Memory) (screen buf : ℕ) (value : ℕ → ℕ) → Stores m m screen buf 0 value
Stores-zero m screen buf value = record {
  in_buffer = λ k h. absurd (omega arith);
  in_page = λ k h. absurd (omega arith);
  elsewhere = λ i p q. refl;
}

cells-suc :
    (m' : Memory) (p n : ℕ) (value : ℕ → ℕ)
    → m' p ≡ value 0
    → ((k : ℕ) → k < n → m' (p + 1 + k) ≡ value (suc k))
    → (k : ℕ) → k < suc n
    → m' (p + k) ≡ value k
cells-suc m' p n value first rest zero h = ap m' (omega arith) ∙ first
cells-suc m' p n value first rest (suc k) h = ap m' (omega arith) ∙ rest k (omega arith)

Stores-suc :
    (m m' : Memory) (screen buf n v : ℕ) (value : ℕ → ℕ)
    → buf + suc n ≤ screen
    → v ≡ value 0
    → Stores (both m buf screen v) m' (screen + 1) (buf + 1) n (λ k. value (suc k))
    → Stores m m' screen buf (suc n) value
Stores-suc m m' screen buf n v value apart v≡ s = record {
  in_buffer =
      cells-suc m' buf n value
        (s.elsewhere buf (inl (omega arith)) (inl (omega arith)) ∙ both-buf m buf screen v ∙ v≡)
        s.in_buffer;
  in_page =
      cells-suc m' screen n value
        (s.elsewhere screen (inr (omega arith)) (inl (omega arith))
          ∙ both-screen m buf screen v
          ∙ v≡)
        s.in_page;
  elsewhere = λ i p q.
      s.elsewhere i (omega arith) (omega arith)
      ∙ both-ne m buf screen v i (omega arith) (omega arith);
}

pub Stores-map :
    {m m' : Memory} {screen buf n : ℕ} {value value' : ℕ → ℕ}
    → ((k : ℕ) → k < n → value k ≡ value' k)
    → Stores m m' screen buf n value
    → Stores m m' screen buf n value'
Stores-map same s = record {
  in_buffer = λ k h. s.in_buffer k h ∙ same k h;
  in_page = λ k h. s.in_page k h ∙ same k h;
  elsewhere = s.elsewhere;
}

cooled-both :
    (m : Memory) (buf screen c p : ℕ)
    → buf < p
    → p + 41 < screen
    → cooled (both m buf screen c) p ≡ cooled m p
unfolding cooled
cooled-both m buf screen c p h h' = rw (
  both-ne m buf screen c (p + 40 - 1) (omega arith) (omega arith),
  both-ne m buf screen c (p + 40) (omega arith) (omega arith),
  both-ne m buf screen c (p + 41) (omega arith) (omega arith),
)

-- The first loop stores what the cells below had before it.
pub burn-Stores :
    (n screen buf : ℕ) (m : Memory)
    → buf + n + 41 ≤ screen
    → Stores m (burn n screen buf m) screen buf n (λ k. cooled m (buf + k))
unfolding burn
burn-Stores zero screen buf m h = Stores-zero m screen buf _
burn-Stores (suc n) screen buf m h =
    Stores-suc m _ screen buf n _ _ (omega arith) (ap (cooled m) (omega arith)) (
      Stores-map same
        (burn-Stores n (screen + 1) (buf + 1) (both m buf screen (cooled m buf)) (omega arith)))
  where
    same :
        (k : ℕ)
        → k < n
        → cooled (both m buf screen (cooled m buf)) (buf + 1 + k) ≡ cooled m (buf + suc k)
    same k h' =
        cooled-both m buf screen _ (buf + 1 + k) (omega arith) (omega arith)
        ∙ ap (cooled m) (omega arith)

-- The value of a new ember, by the reading of the noise.
abbrev pub ember : ℕ → ℕ
ember v = u8 (0x30 + (v >>> 4))

pub feed-Stores :
    (noise : ℕ → ℕ) (n r screen buf : ℕ) (m : Memory)
    → buf + n ≤ screen
    → Stores m (feed noise n r screen buf m) screen buf n (λ k. ember (noise (r + k)))
unfolding feed
feed-Stores noise zero r screen buf m h = Stores-zero m screen buf _
feed-Stores noise (suc n) r screen buf m h =
    Stores-suc m _ screen buf n _ _ (omega arith) (ap (λ i. ember (noise i)) (omega arith)) (
      Stores-map (λ k h'. ap (λ i. ember (noise i)) (omega arith))
        (feed-Stores noise n (r + 1) (screen + 1) (buf + 1) _ (omega arith)))
