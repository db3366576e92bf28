-- ===== src/Overlays.antt =====
-- bin/cc65-snapshot-win32/samples/multidemo.c, as compiled for a Commodore 64: three overlays are loaded
-- from files, or from extended memory into which they have been copied before.
-- The extended memory and its driver, the directory and cbm_load are parameters: whether cbm_load
-- succeeds, and the memory after it. An overlay is its index in the table.
pub mod Loading
pub mod Code
pub mod Drivers
pub mod Files
mod Tests
use builds.Base.{
  ℕ, zero, suc, ◌+◌, ◌-◌, ◌*◌, ◌/◌, ◌^◌, ◌==◌, ltb, if◌then◌else◌, u8, u16, Bool, true, false, not,
  ◌&&◌, ◌||◌, Option, none, some, List, [], ◌∷◌, ◌++◌, Memory, update, blit, ℤ, pos, negsuc, ltb_ℤ,
  pos_part, s16,
}

abbrev pub em_page_size : ℕ
em_page_size = 256

-- The calls of the library on extended memory.
pub record Em : Type 1 where
  pub State : Type 0
  pub em_pagecount : ℕ
  pub em_copyto : ℕ → ℕ → (ℕ → ℕ) → State → State
  pub em_copyfrom : ℕ → ℕ → State → ℕ → ℕ

-- The field `page` of the table, and both memories.
pub record Machine (E : Em) : Type 0 where
  pub page : ℕ → ℤ
  pub memory : Memory
  pub em : E.State

-- The names found, of which `max` counts those in use.
pub record Found {ℓ} (Name : Type ℓ) : Type ℓ where
  pub emd : ℕ → Name
  pub max : ℕ

-- The body of the loop over the directory: `is_emd` is the test of the extension.
pub memorize {ℓ} : {Name : Type ℓ} → (Name → Bool) → Bool × Name → Found Name → Found Name
memorize is_emd (is_file, name) f =
    if is_file && is_emd name
    then record { emd = λ i. if i == f.max then name else f.emd i; max = u8 (f.max + 1) }
    else f

pub search_directory {ℓ} :
    {Name : Type ℓ} → (Name → Bool) → List (Bool × Name) → Found Name → Found Name
search_directory is_emd [] f = f
search_directory is_emd (entry ∷ dir) f = search_directory is_emd dir (memorize is_emd entry f)

-- `for (num = 0; num < max; ++num)`, with a round of fuel for each value of an unsigned char: the names
-- that em_load_driver is called with, the first one first, and what the function returns. `loads` is
-- whether the driver of a name can be loaded.
pub try_drivers {ℓ} : {Name : Type ℓ} → ℕ → (Name → Bool) → Found Name → ℕ → List Name × Bool
try_drivers zero loads f num = ([], false)
try_drivers (suc fuel) loads f num =
    let drv = f.emd num in
    let rest = try_drivers fuel loads f (u8 (num + 1)) in
    let tried = if loads drv then (drv ∷ [], true) else (drv ∷ rest.0, rest.1) in
    if ltb num f.max then tried else ([], false)

-- `none` is a directory that cannot be opened; `rubbish` is what unused places hold.
pub load_em_driver {ℓ} :
    {Name : Type ℓ}
    → (Name → Bool)
    → (Name → Bool)
    → Name
    → Option (List (Bool × Name))
    → List Name × Bool
load_em_driver is_emd loads rubbish none = ([], false)
load_em_driver is_emd loads rubbish (some dir) =
    try_drivers 256 loads (search_directory is_emd dir (record { emd = λ i. rubbish; max = 0 })) 0

module _ (E : Em) (cbm_load : ℕ → Memory → Bool × Memory) (addr size : ℕ → ℕ) where
  -- A negative page is one that is not set.
  pub load_overlay : ℕ → Machine E → Machine E × Bool
  load_overlay num m =
      let k = num - 1 in
      if ltb_ℤ (m.page k) (pos 0)
      then (record m { memory = (cbm_load k m.memory).1 }, (cbm_load k m.memory).0)
      else (
        record m {
          memory =
              blit m.memory (addr k) (size k) (E.em_copyfrom (pos_part (m.page k)) (size k) m.em);
        },
        true,
      )

  -- `em_copyto` and `overlay[num].page = page`.
  pub store_overlay : ℕ → ℕ → Machine E → Machine E
  store_overlay num page m = record m {
    page = λ i. if i == num then s16 (pos page) else m.page i;
    em = E.em_copyto page (size num) (λ i. m.memory (addr num + i)) m.em;
  }

  pub pages : ℕ → ℕ
  pages num = u16 (size num + em_page_size - 1) / em_page_size

  -- The loop of copyoverlays, by the rounds left.
  pub copy_overlays : ℕ → ℕ → ℕ → Machine E → Machine E
  copy_overlays zero num page m = m
  copy_overlays (suc left) num page m =
      let skipped = copy_overlays left (u8 (num + 1)) page in
      let (m', loaded) = load_overlay (num + 1) m in
      let stored =
        copy_overlays left (u8 (num + 1)) (u16 (page + pages num)) (store_overlay num page m') in
      if ltb (u16 (E.em_pagecount + 2 ^ 16 - page)) (pages num)
      then skipped m
      else if loaded
      then stored
      else skipped m'

  -- A call of an overlay, with what the memory holds when it is made; the last call first.
  pub call_overlay : ℕ → Machine E × List (ℕ × Memory) → Machine E × List (ℕ × Memory)
  call_overlay num (m, calls) =
      let (m', loaded) = load_overlay num m in
      if loaded then (m', (num, m'.memory) ∷ calls) else (m', calls)

  pub multi_demo : Bool → Machine E → Machine E × List (ℕ × Memory)
  multi_demo driver m =
      let m' = if driver then copy_overlays 3 0 0 m else m in
      call_overlay 3 (call_overlay 2 (call_overlay 1 (m', [])))

-- The machine when the program starts.
abbrev pub machine_at_start : (E : Em) → Memory → E.State → Machine E
machine_at_start E memory em = record { page = λ i. negsuc 0; memory = memory; em = em }
