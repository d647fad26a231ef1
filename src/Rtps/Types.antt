-- ===== src/Rtps/Types.antt =====
-- include/openrtdds/rtps/types.hpp, and the byte order of include/openrtdds/serialization/cdr.hpp.
use open_rtdds.Prelude.{ℕ, refl, ◌≡◌, ◌↔◌, Bool, true, false, ◌&&◌, not, List, [], ◌∷◌, arith, ◌==◌}

pub data ByteOrder : Type 0 where
  big_endian little_endian : ByteOrder

pub record ProtocolVersion : Type 0 where
  pub major : ℕ
  pub minor : ℕ

abbrev pub default_version : ProtocolVersion
default_version = record { major = 2; minor = 5 }

pub record VendorId : Type 0 where
  pub v0 : ℕ
  pub v1 : ℕ

-- std::array<std::uint8_t, 12>
abbrev pub GuidPrefix : Type 0
GuidPrefix = List ℕ

pub record EntityId : Type 0 where
  pub e0 : ℕ
  pub e1 : ℕ
  pub e2 : ℕ
  pub e3 : ℕ

abbrev pub no_entity : EntityId
no_entity = record { e0 = 0; e1 = 0; e2 = 0; e3 = 0 }

-- operator== on EntityId
abbrev pub entity_eq : EntityId → EntityId → Bool
entity_eq a b = a.e0 == b.e0 && a.e1 == b.e1 && a.e2 == b.e2 && a.e3 == b.e3

-- operator!= on EntityId
abbrev pub entity_ne : EntityId → EntityId → Bool
entity_ne a b = not (entity_eq a b)

-- std::array's operator==
abbrev pub bytes_eq : List ℕ → List ℕ → Bool
bytes_eq [] [] = true
bytes_eq [] (b ∷ bs) = false
bytes_eq (a ∷ bs) [] = false
bytes_eq (a ∷ xs) (b ∷ ys) = a == b && bytes_eq xs ys

pub entity_eq_iff : (a b : EntityId) → (entity_eq a b ≡ true) ↔ (a ≡ b)
entity_eq_iff a b = (λ h. ground arith, λ h. ground arith)

pub bytes_eq_refl : (xs : List ℕ) → bytes_eq xs xs ≡ true
bytes_eq_refl [] = refl
bytes_eq_refl (x ∷ xs) = ground (arith, bytes_eq_refl xs)
