-- ===== src/Gunzip/Format.antt =====
-- The structure of a GZIP file, as the comment in gunzip65.c (lines 46 to 68) describes it.
use builds.Base.{
  ℕ, suc, ◌+◌, ◌/◌, ◌%◌, ◌^◌, ◌<◌, ◌≡◌, ◌≢◌, ap, ◌∙◌, arith, Memory, Bool, true, false, List, [],
  ◌∷◌, ◌++◌, Option, none, some, length, get_or, if◌then◌else◌,
}
use mathlib.Core.Path.{subst}
use builds.Gunzip.{fhcrc, fextra, fname, fcomment, has_flag}

-- `mtime_to_os` are the six bytes at offsets 4 to 9: date and time, extra flags, target system.
pub record GzipFile : Type 0 where
  pub is_text : Bool
  pub mtime_to_os : List ℕ
  pub extra : Option (List ℕ)
  pub name : Option (List ℕ)
  pub comment : Option (List ℕ)
  pub header_crc : Option (ℕ × ℕ)
  pub deflated : List ℕ
  pub crc : ℕ
  pub size : ℕ

abbrev pub is_some {ℓ} : {A : Type ℓ} → Option A → Bool
is_some none = false
is_some (some a) = true

unfoldable pub flag_byte : Bool → Bool → Bool → Bool → Bool → ℕ
flag_byte text hcrc extra name comment =
    (if text then 1 else 0)
    + (if hcrc then 2 else 0)
    + (if extra then 4 else 0)
    + (if name then 8 else 0)
    + (if comment then 16 else 0)

abbrev pub word_bytes : ℕ → List ℕ
word_bytes n = (n % 256) ∷ (n / 256 % 256) ∷ []

abbrev pub long_bytes : ℕ → List ℕ
long_bytes n = word_bytes n ++ word_bytes (n / 65536)

abbrev pub extra_field : Option (List ℕ) → List ℕ
extra_field none = []
extra_field (some xs) = word_bytes (length xs) ++ xs

abbrev pub text_field : Option (List ℕ) → List ℕ
text_field none = []
text_field (some xs) = xs ++ 0 ∷ []

abbrev pub crc_field : Option (ℕ × ℕ) → List ℕ
crc_field none = []
crc_field (some (a, b)) = a ∷ b ∷ []

abbrev pub flags_of : GzipFile → ℕ
flags_of g =
    flag_byte g.is_text (is_some g.header_crc) (is_some g.extra) (is_some g.name)
      (is_some g.comment)

-- The fields between the fixed part of the header and the deflate data.
abbrev pub options_of : GzipFile → List ℕ
options_of g =
    extra_field g.extra ++ (text_field g.name ++ (text_field g.comment ++ crc_field g.header_crc))

abbrev pub encode : GzipFile → List ℕ
encode g =
    0x1f
    ∷ 0x8b
    ∷ 8
    ∷ flags_of g
    ∷ (g.mtime_to_os ++ (options_of g ++ (g.deflated ++ (long_bytes g.crc ++ long_bytes g.size))))

abbrev pub AllNonzero : List ℕ → Type 0
AllNonzero [] = Unit {0}
AllNonzero (x ∷ xs) = (x ≢ 0) × AllNonzero xs

abbrev pub IsText : Option (List ℕ) → Type 0
IsText none = Unit {0}
IsText (some xs) = AllNonzero xs

abbrev pub HasWordLength : Option (List ℕ) → Type 0
HasWordLength none = Unit {0}
HasWordLength (some xs) = length xs < 2 ^ 16

pub record IsValid (g : GzipFile) : Type 0 where
  pub fixed : length g.mtime_to_os ≡ 6
  pub extra_length : HasWordLength g.extra
  pub name_text : IsText g.name
  pub comment_text : IsText g.comment
  pub crc_long : g.crc < 2 ^ 32
  pub size_long : g.size < 2 ^ 32

-- The flag byte has each flag exactly when its field is there.
pub has_flag-flag_byte :
    (t h e n c : Bool)
    → let f = flag_byte t h e n c in
      (has_flag f fhcrc ≡ h)
      × (has_flag f fextra ≡ e)
      × (has_flag f fname ≡ n)
      × (has_flag f fcomment ≡ c)
unfolding flag_byte
has_flag-flag_byte t h e n c = ground arith

-- The memory holds the list from an address on.
abbrev pub Holds : Memory → ℕ → List ℕ → Type 0
Holds m p [] = Unit {0}
Holds m p (x ∷ xs) = (m p ≡ x) × Holds m (p + 1) xs

pub Holds-at : (m : Memory) (p q : ℕ) (xs : List ℕ) → p ≡ q → Holds m p xs → Holds m q xs
Holds-at m p q xs e h = subst (λ k. Holds m k xs) e h

pub Holds-append :
    (m : Memory) (p q : ℕ) (xs ys : List ℕ)
    → Holds m p (xs ++ ys)
    → q ≡ p + length xs
    → Holds m p xs × Holds m q ys
Holds-append m p q [] ys h e = (tt, Holds-at m p q ys (omega arith) h)
Holds-append m p q (x ∷ xs) ys h e =
    let (l, r) = Holds-append m (p + 1) q xs ys h.1 (omega arith) in ((h.0, l), r)

-- The buffer, zero at first, with a file read into it.
unfoldable pub load : List ℕ → Memory
load xs i = get_or xs i 0

Holds-get_or :
    (m : Memory) (p : ℕ) (xs : List ℕ) → ((i : ℕ) → m (p + i) ≡ get_or xs i 0) → Holds m p xs
Holds-get_or m p [] h = tt
Holds-get_or m p (x ∷ xs) h = (
  (let e : p ≡ p + 0 = omega arith in ap m e ∙ h 0),
  Holds-get_or m (p + 1) xs λ i. let e : p + 1 + i ≡ p + suc i = omega arith in ap m e ∙ h (suc i),
)

pub Holds-load : (xs : List ℕ) → Holds (load xs) 0 xs
unfolding load
Holds-load xs = Holds-get_or (load xs) 0 xs λ i. let e : 0 + i ≡ i = omega arith in ap (load xs) e

-- Two memories that agree on a stretch hold the same list there.
pub Holds-copy :
    (m m' : Memory) (p q : ℕ) (xs : List ℕ)
    → ((i : ℕ) → i < length xs → m' (q + i) ≡ m (p + i))
    → Holds m p xs
    → Holds m' q xs
Holds-copy m m' p q [] h k = tt
Holds-copy m m' p q (x ∷ xs) h (e, k) = (first, Holds-copy m m' (p + 1) (q + 1) xs rest k)
  where
    first : m' q ≡ x
    first =
        let eq : q ≡ q + 0 = omega arith in
        let ep : p + 0 ≡ p = omega arith in ap m' eq ∙ h 0 (omega arith) ∙ ap m ep ∙ e

    rest : (i : ℕ) → i < length xs → m' (q + 1 + i) ≡ m (p + 1 + i)
    rest i lt =
        let eq : q + 1 + i ≡ q + suc i = omega arith in
        let ep : p + suc i ≡ p + 1 + i = omega arith in ap m' eq ∙ h (suc i) (omega arith) ∙ ap m ep
