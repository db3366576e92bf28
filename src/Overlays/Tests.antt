-- ===== src/Overlays/Tests.antt =====
-- Extended memory of four pages that meets the interface of multidemo.c, a run, and instances.
use builds.Base.{
  ℕ, zero, suc, ◌+◌, ◌*◌, ◌%◌, ◌^◌, ◌<◌, ◌≤◌, ◌≡◌, refl, ltb, lt→ltb, if◌then◌else◌, arith, ◌==◌,
  Bool, true, false, Option, none, some, List, [], ◌∷◌, Memory, blit, blit-in, blit-out, inl,
  length, map, ℤ, pos, negsuc,
}
use builds.Overlays.{
  Em, Machine, load_overlay, copy_overlays, multi_demo, machine_at_start, load_em_driver,
}
use builds.Overlays.Code.{HaveCode, multi_demo-HaveCode}
use builds.Overlays.Loading.{IsLawful, HasCode}
use builds.Overlays.Drivers.{drivers_in, IsTried, load_em_driver_lem}

abbrev four_pages : Em
four_pages = record {
  State = Memory;
  em_pagecount = 4;
  em_copyto = λ page n f s. blit s (page * 256) n f;
  em_copyfrom = λ page n s i. if ltb (page * 256 + i) 1024 then s (page * 256 + i) else 255;
}

four_pages-IsLawful : IsLawful four_pages
four_pages-IsLawful = record {
  pagecount_bound = omega arith;
  copyfrom-copyto = λ page n i f s fits h.
      rw (lt→ltb (page * 256 + i) 1024 (omega arith)) (blit-in s (page * 256) n f i h);
  copyfrom-copyto_later = λ page n page' n' i f s apart fits h.
      rw (blit-out s (page' * 256) n' f (page * 256 + i) (inl (omega arith))) refl;
}

abbrev area : ℕ → ℕ
area k = 1000

abbrev bytes : ℕ → ℕ
bytes k = 300

abbrev code_of : ℕ → ℕ → ℕ
code_of k i = k * 7 + i % 5

-- A disk from which every overlay can be loaded.
abbrev from_disk : ℕ → Memory → Bool × Memory
from_disk k memory = (true, blit memory 1000 300 (code_of k))

bytes-small : (k : ℕ) → bytes k + 255 < 2 ^ 16
bytes-small k = omega arith

from_disk-HasCode :
    (k : ℕ) (memory : Memory)
    → (from_disk k memory).0 ≡ true
    → HasCode area bytes code_of k (from_disk k memory).1
from_disk-HasCode k memory e i h = blit-in memory 1000 300 (code_of k) i h

abbrev zeros : Memory
zeros i = 0

abbrev finished : Bool → Machine four_pages × List (ℕ × Memory)
finished driver =
    multi_demo four_pages from_disk area bytes driver (machine_at_start four_pages zeros zeros)

-- There is room for two overlays; the third is loaded from its file.
pages_set :
    (finished true).0.page 0 ∷ (finished true).0.page 1 ∷ (finished true).0.page 2 ∷ []
    ≡ pos 0 ∷ pos 2 ∷ negsuc 0 ∷ []
unfolding multi_demo copy_overlays load_overlay builds.Overlays.call_overlay builds.Overlays.pages
    builds.Overlays.store_overlay builds.Base.s16 blit
pages_set = refl

multi_demo-HaveCode_example :
    HaveCode four_pages four_pages-IsLawful from_disk area bytes code_of bytes-small
      from_disk-HasCode
      (3 ∷ 2 ∷ 1 ∷ [])
      (finished true).1
multi_demo-HaveCode_example =
    multi_demo-HaveCode four_pages four_pages-IsLawful from_disk area bytes code_of bytes-small
      from_disk-HasCode true zeros zeros

-- Names are numbers; the even ones are drivers, and 4 can be loaded.
abbrev names : List (Bool × ℕ)
names = (true, 2) ∷ (false, 4) ∷ (true, 3) ∷ (true, 4) ∷ []

load_em_driver_lem_example :
    IsTried
      (λ n. n == 4)
      (drivers_in (λ n. n % 2 == 0) names)
      (load_em_driver (λ n. n % 2 == 0) (λ n. n == 4) 0 (some names))
unfolding drivers_in
load_em_driver_lem_example =
    load_em_driver_lem (λ n. n % 2 == 0) (λ n. n == 4) 0 names (omega arith)
