-- ===== src/Serialization/Copies.antt =====
-- memcpy behind a pointer: what it leaves, and what is read back.
use open_rtdds.Prelude.{
  ℕ, zero, suc, ◌+◌, ◌≤◌, ◌<◌, ◌≡◌, refl, ap, ap₂, ◌∙◌, List, [], ◌∷◌, Option, arith, length, take,
  get_or, blit, length-blit, BytePointer, ◌!=◌, if◌then◌else◌, true,
}
use open_rtdds.Serialization.Cdr.{byte_at, copy_to}
use open_rtdds.Serialization.Integral.{Sized}
use open_rtdds.Serialization.Reader.{bytes_from}

get_or-blit_below :
    (xs : List ℕ) (k i : ℕ) (src : List ℕ) → i < k → get_or (blit xs k src) i 0 ≡ get_or xs i 0
get_or-blit_below [] k i src h = refl
get_or-blit_below (x ∷ xs) zero i src h = absurd (omega arith)
get_or-blit_below (x ∷ xs) (suc k) zero src h = refl
get_or-blit_below (x ∷ xs) (suc k) (suc i) src h = get_or-blit_below xs k i src (omega arith)

get_or-blit_inside :
    (xs : List ℕ) (k i : ℕ) (src : List ℕ)
    → i < length src
    → k + length src ≤ length xs
    → get_or (blit xs k src) (k + i) 0 ≡ get_or src i 0
get_or-blit_inside [] k i src h le = absurd (omega arith)
get_or-blit_inside (x ∷ xs) zero i [] h le = absurd (omega arith)
get_or-blit_inside (x ∷ xs) zero zero (s ∷ src) h le =
    ap (λ n. get_or (s ∷ blit xs 0 src) n 0) {x = 0 + 0} {y = 0} (omega arith)
get_or-blit_inside (x ∷ xs) zero (suc i) (s ∷ src) h le =
    ap (λ n. get_or (s ∷ blit xs 0 src) n 0) {x = 0 + suc i} {y = suc (0 + i)} (omega arith)
    ∙ get_or-blit_inside xs 0 i src (omega arith) (omega arith)
get_or-blit_inside (x ∷ xs) (suc k) i src h le =
    ap (λ n. get_or (x ∷ blit xs k src) n 0) {x = suc k + i} {y = suc (k + i)} (omega arith)
    ∙ get_or-blit_inside xs k i src h (omega arith)

module _ (n k : ℕ) (src : List ℕ) where
  pub copy_to-Sized : (b : BytePointer) → Sized n b → Sized n (copy_to b k src)
  copy_to-Sized Option.none h = h
  copy_to-Sized (Option.some xs) h = length-blit xs k src ∙ h

  pub copy_to_below : (i : ℕ) (b : BytePointer) → i < k → byte_at (copy_to b k src) i ≡ byte_at b i
  copy_to_below i Option.none h = refl
  copy_to_below i (Option.some xs) h = get_or-blit_below xs k i src h

  pub copy_to_inside :
      (i : ℕ) (b : BytePointer)
      → Sized n b
      → i < length src
      → k + length src ≤ n
      → byte_at (copy_to b k src) (k + i) ≡ get_or src i 0
  copy_to_inside i Option.none h lt le = absurd (omega arith)
  copy_to_inside i (Option.some xs) h lt le = get_or-blit_inside xs k i src lt (omega arith)

-- Bytes that are those of a list are read as the list.
pub bytes_from_eq :
    (b : BytePointer) (start : ℕ) (src : List ℕ)
    → ((i : ℕ) → i < length src → byte_at b (start + i) ≡ get_or src i 0)
    → bytes_from b start (length src) ≡ src
bytes_from_eq b start [] h = refl
bytes_from_eq b start (x ∷ src) h =
    ap₂ (λ y ys. y ∷ ys)
      (ap (byte_at b) {x = start} {y = start + 0} (omega arith) ∙ h 0 (omega arith))
      (bytes_from_eq b (suc start) src (λ i lt.
        ap (byte_at b) {x = suc start + i} {y = start + suc i} (omega arith)
        ∙ h (suc i) (omega arith)))

pub length-take_le : (m : ℕ) (xs : List ℕ) → m ≤ length xs → length (take m xs) ≡ m
length-take_le zero xs h = refl
length-take_le (suc m) [] h = absurd (omega arith)
length-take_le (suc m) (x ∷ xs) h = ap suc (length-take_le m xs (omega arith))

-- A copy that is left out where there is nothing to copy.
abbrev pub copied : ℕ → BytePointer → ℕ → List ℕ → BytePointer
copied size b k src = if size != 0 then copy_to b k src else b

pub record Copied (n k : ℕ) (src : List ℕ) (b c : BytePointer) : Type 0 where
  pub sized : Sized n c
  pub below : (i : ℕ) → i < k → byte_at c i ≡ byte_at b i
  pub inside : (i : ℕ) → i < length src → byte_at c (k + i) ≡ get_or src i 0

pub copied-Copied :
    (n k : ℕ) (src : List ℕ) (b : BytePointer)
    → Sized n b
    → k + length src ≤ n
    → Copied n k src b (copied (length src) b k src)
copied-Copied n k [] b h le = record {
  sized = h;
  below = λ i lt. refl;
  inside = λ i lt. absurd (omega arith);
}
copied-Copied n k (x ∷ src) b h le =
    let nonzero : (suc (length src) != 0) ≡ true = ground arith in
    rw nonzero (record {
      sized = copy_to-Sized n k (x ∷ src) b h;
      below = λ i lt. copy_to_below n k (x ∷ src) i b lt;
      inside = λ i lt. copy_to_inside n k (x ∷ src) i b h lt le;
    })
