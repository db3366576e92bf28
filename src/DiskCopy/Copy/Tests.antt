-- ===== src/DiskCopy/Copy/Tests.antt =====
-- Drives that meet the interface of diodemo.c: two disks of two sectors of a byte, and runs.
use builds.Base.{
  ℕ, ◌+◌, ◌*◌, ◌≡◌, ◌≢◌, refl, ap, ◌∙◌, sym, arith, ltb, ◌==◌, if◌then◌else◌, true, Option, none,
  some, List, [], ◌∷◌,
}
use builds.DiskCopy.Copy.{
  Side, source, target, Dio, Job, Outcome, ok, failed, out_of_fuel, copy_chunks, job_at_start,
  Drives, drives, too_many_arguments, drives_of,
}
use builds.DiskCopy.Copy.Laws.{IsLawful, Ensures}
use builds.DiskCopy.Copy.Loops.{HasCause}
use builds.DiskCopy.Copy.Rounds.{HasCopy, copy_chunks-HasCopy}

record Desk : Type 0 where
  sources : ℕ → ℕ → ℕ
  targets : ℕ → ℕ → ℕ
  loaded : ℕ → Side

abbrev on_disk : Side → Desk → ℕ → ℕ → ℕ
on_disk source w = w.sources
on_disk target w = w.targets

abbrev put : (ℕ → ℕ → ℕ) → ℕ → (ℕ → ℕ) → ℕ → ℕ → ℕ
put d n f m i = if m == n then f i else d m i

abbrev write_disk : Side → ℕ → (ℕ → ℕ) → Desk → Desk
write_disk source n f w = record w { sources = put w.sources n f }
write_disk target n f w = record w { targets = put w.targets n f }

abbrev two_disks : Dio
two_disks = record {
  World = Desk;
  insert = λ side d w. record w { loaded = λ e. if e == d then side else w.loaded e };
  dio_open = λ d w. true;
  dio_query_sectsize = λ d w. 1;
  dio_query_sectcount = λ d w. 2;
  dio_read = λ d n w. some (on_disk (w.loaded d) w n);
  dio_write = λ d n f w. some (write_disk (w.loaded d) n f w);
}

put-same :
    (side : Side) (n j : ℕ) (f : ℕ → ℕ) (w : Desk) → on_disk side (write_disk side n f w) n j ≡ f j
put-same source n j f w = ground arith
put-same target n j f w = ground arith

put-other :
    (side : Side) (n m j : ℕ) (f : ℕ → ℕ) (w : Desk)
    → m ≢ n
    → on_disk side (write_disk side n f w) m j ≡ on_disk side w m j
put-other source n m j f w h = ground arith
put-other target n m j f w h = ground arith

put-side :
    (side l : Side) (n : ℕ) (f : ℕ → ℕ) (w : Desk)
    → l ≢ side
    → on_disk l (write_disk side n f w) ≡ on_disk l w
put-side source source n f w h = absurd (h refl)
put-side source target n f w h = refl
put-side target source n f w h = refl
put-side target target n f w h = absurd (h refl)

loaded-write :
    (side : Side) (n : ℕ) (f : ℕ → ℕ) (w : Desk) → (write_disk side n f w).loaded ≡ w.loaded
loaded-write source n f w = refl
loaded-write target n f w = refl

on_disk-insert :
    (l side : Side) (d : ℕ) (w : Desk) → on_disk l (two_disks.insert side d w) ≡ on_disk l w
on_disk-insert source side d w = refl
on_disk-insert target side d w = refl

some_inj {ℓ} : {A : Type ℓ} {a b : A} → some a ≡ some b → a ≡ b
some_inj h = cc

written :
    (side : Side) (d n : ℕ) (w w' : Desk) (f : ℕ → ℕ)
    → w.loaded d ≡ side
    → two_disks.dio_write d n f w ≡ some w'
    → w' ≡ write_disk side n f w
written side d n w w' f here e = some_inj (sym e) ∙ ap (λ s. write_disk s n f w) here

two_disks-IsLawful : IsLawful two_disks
two_disks-IsLawful = record {
  disk = on_disk;
  Holds = λ side d w. w.loaded d ≡ side;
  disk-insert = on_disk-insert;
  insert-Holds = λ side d w. ground arith;
  insert-keeps = λ l side e d w ne h. ground arith;
  sectsize-insert = λ e d side w. refl;
  sectcount-insert = λ e d side w. refl;
  sectsize-bound = λ d w. omega arith;
  read-disk = λ side d n j w f here e hj. rw (← here) (ap (λ (g : ℕ → ℕ). g j) (some_inj (sym e)));
  disk-write =
      λ side d n j w w' f here e hj. rw (written side d n w w' f here e) (put-same side n j f w);
  disk-write_sector = λ side d n m j w w' f here e ne.
      rw (written side d n w w' f here e) (put-other side n m j f w ne);
  disk-write_side =
      λ side l d n w w' f here e ne. rw (written side d n w w' f here e) (put-side side l n f w ne);
  write-keeps = λ l e d n w w' f h here.
      rw (written (w.loaded d) d n w w' f refl h, loaded-write (w.loaded d) n f w) here;
  sectsize-write = λ e d n w w' f h. refl;
}

-- Sector n of the source disk holds 10 n + 1.
abbrev at_desk : Desk
at_desk = record { sources = λ n i. n * 10 + 1; targets = λ n i. 0; loaded = λ d. target }

-- A heap with room for a byte.
abbrev heap : ℕ → Option ℕ
heap size = if ltb size 2 then some 100 else none

copied_bytes : Outcome Desk Job → List ℕ
copied_bytes (ok j w) = w.targets 0 0 ∷ w.targets 1 0 ∷ []
copied_bytes (failed e w) = []
copied_bytes out_of_fuel = []

-- One drive, with a chunk for each sector.
one_drive :
    copied_bytes (copy_chunks two_disks heap 8 8 3 (job_at_start (λ i. 7)) at_desk) ≡ 1 ∷ 11 ∷ []
unfolding copied_bytes copy_chunks builds.DiskCopy.Copy.copy_chunk builds.DiskCopy.Copy.begin_source
    builds.DiskCopy.Copy.open_source builds.DiskCopy.alloc_buffer builds.DiskCopy.alloc_from
    builds.DiskCopy.attempt builds.DiskCopy.chunk_count builds.DiskCopy.Copy.read_chunk
    builds.DiskCopy.Copy.in_chunk builds.DiskCopy.Copy.read_sector builds.DiskCopy.Copy.begin_target
    builds.DiskCopy.Copy.open_target builds.DiskCopy.Copy.write_chunk
    builds.DiskCopy.Copy.write_sector builds.DiskCopy.Copy.next_chunk
    builds.DiskCopy.Copy.store_sector builds.Base.blit builds.DiskCopy.Copy.place
one_drive = refl

copy_chunks-HasCopy_example :
    Ensures
      (λ e w.
        (two_disks-IsLawful.disk source w ≡ two_disks-IsLawful.disk source at_desk)
        × HasCause two_disks two_disks-IsLawful heap 8 9 at_desk e w)
      (HasCopy two_disks two_disks-IsLawful heap 8 9 at_desk)
      (copy_chunks two_disks heap 8 9 4 (job_at_start (λ i. 7)) at_desk)
copy_chunks-HasCopy_example =
    copy_chunks-HasCopy two_disks two_disks-IsLawful heap 8 9 at_desk 4 (λ i. 7) (omega arith)
      (omega arith)
