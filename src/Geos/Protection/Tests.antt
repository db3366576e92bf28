-- ===== src/Geos/Protection/Tests.antt =====
-- Two disks in a drive, and the theorem of rmvprot.c on them.
use builds.Base.{ℕ, ◌≡◌, refl, ◌==◌, if◌then◌else◌, true, List, [], ◌∷◌, ◌≢◌, arith}
use builds.Geos.Protection.{
  Click, ok, disk, cancel, Disks, Ending, returned, clear_type, remove, remove_protection,
}
use builds.Geos.Protection.Clears.{IsLawful, Ends, IsFreeIf, remove_protection-Ends}

-- The disk in the drive, and the headers.
pub record Drive : Type 0 where
  pub current : ℕ
  pub headers : ℕ → ℕ → ℕ

abbrev drive : Disks
drive = record {
  World = Drive;
  get_dir_head = λ w. (0, w.headers w.current, w);
  put_dir_head = λ h w. (0, record w { headers = λ k. if k == w.current then h else w.headers k });
  change_disk = λ w. record w { current = 1 };
}

drive-IsLawful : IsLawful drive
drive-IsLawful = record {
  inserted = λ w. w.current;
  header = λ w. w.headers;
  get-header = λ w e. refl;
  get-inserted = λ w. refl;
  get-same = λ w. refl;
  put-header = λ h w e. here h w.headers w.current;
  put-inserted = λ h w. refl;
  put-other = λ h w k ne. other h w.headers w.current k ne;
  put-failed = λ h w e. absurd (e refl);
  change-same = λ w. refl;
}
  where
    here : (h : ℕ → ℕ) (headers : ℕ → ℕ → ℕ) (c : ℕ) → (if c == c then h else headers c) ≡ h
    here h headers c = ground arith

    other :
        (h : ℕ → ℕ) (headers : ℕ → ℕ → ℕ) (c k : ℕ)
        → k ≢ c
        → (if k == c then h else headers k) ≡ headers k
    other h headers c k ne = ground arith

-- Both disks are protected, as boot disks.
abbrev protected : Drive
protected = record { current = 0; headers = λ k i. 66 }

abbrev clicks : List Click
clicks = ok ∷ disk ∷ ok ∷ cancel ∷ []

-- The type byte of a disk at the end.
type_at_end : ℕ → Ending Drive → ℕ
type_at_end k (returned w) = w.headers k 189
type_at_end k _ = 1000

both_cleared : type_at_end 0 (remove_protection drive clicks protected) ≡ 0
unfolding type_at_end remove_protection remove clear_type
both_cleared = refl

remove_protection-Ends_example :
    Ends drive drive-IsLawful protected true
      (IsFreeIf drive drive-IsLawful true)
      (remove_protection drive clicks protected)
remove_protection-Ends_example = remove_protection-Ends drive drive-IsLawful clicks protected
