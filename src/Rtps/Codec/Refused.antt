-- ===== src/Rtps/Codec/Refused.antt =====
-- When a HEARTBEAT is not built.
use open_rtdds.Prelude.{
  ◌↔◌, ◌≤◌, ◌⊎◌, inl, inr, Bool-cases, if◌then◌else◌, ℕ, ◌<◌, ◌≡◌, refl, arith, true, false, ◌&&◌,
  not, Option, ◌!=◌, ltb, BytePointer,
}
use open_rtdds.Core.History.{is_null}
use open_rtdds.Rtps.Types.{ByteOrder, big_endian, little_endian}
use open_rtdds.Rtps.Messages.{Heartbeat}
use open_rtdds.Serialization.Integral.{Sized}
use open_rtdds.Rtps.Wire.{supported_version, supported_byte_order}
use open_rtdds.Rtps.Codec.{
  ReliabilityMessageError, ReliabilityMessageBuilder, begin, build_heartbeat, valid_range,
}

-- Why a HEARTBEAT cannot be built.
abbrev pub Unbuildable : ReliabilityMessageBuilder → Heartbeat → Type 0
Unbuildable b config =
    (valid_range config.first_sequence_number config.last_sequence_number ≡ false)
    ⊎ (supported_version config.header.version ≡ false)
    ⊎ (b.capacity < 52)

-- A HEARTBEAT is refused exactly for an invalid range of sequence numbers, an unsupported version or a
-- buffer of less than 52 bytes. It is then refused with the first of these as its error and with no
-- bytes, and the buffer is not changed.
pub build_heartbeat_refused :
    (b : ReliabilityMessageBuilder) (config : Heartbeat)
    → Sized b.capacity b.buffer
    → (((build_heartbeat b config).0 ≡ false) ↔ Unbuildable b config)
      × (Unbuildable b config
          → (build_heartbeat b config).1 ≡ record b {
            size = 0;
            error =
                if not (valid_range config.first_sequence_number config.last_sequence_number)
                then ReliabilityMessageError.invalid_sequence_number
                else if not (supported_version config.header.version)
                then ReliabilityMessageError.unsupported_version
                else ReliabilityMessageError.buffer_overflow;
          })
unfolding build_heartbeat begin
build_heartbeat_refused b config sized =
    elim (Bool-cases (valid_range config.first_sequence_number config.last_sequence_number)) [
      | inr out ↦ rw out ((λ q. inl refl, λ q. refl), λ q. refl)
      | inl range ↦ elim (Bool-cases (is_null b.buffer && b.capacity != 0)) [
        | inl null ↦ absurd (null_sized b.capacity b.buffer sized null)
        | inr pointed ↦ elim (Bool-cases (supported_version config.header.version)) [
          | inr old ↦ rw (range, pointed, old) ((λ q. inr (inl refl), λ q. refl), λ q. refl)
          | inl good ↦ elim (Bool-cases (ltb b.capacity 52)) [
            | inl short ↦
                rw (range, pointed, good, order config.header.submessage_byte_order, short)
                  ((λ q. inr (inr (ground (arith, short))), λ q. refl), λ q. refl)
            | inr enough ↦
                rw (range, pointed, good, order config.header.submessage_byte_order, enough)
                  (
                    (λ q. cc, λ u. absurd (buildable (ground (arith, enough)) u)),
                    λ u. absurd (buildable (ground (arith, enough)) u),
                  )
          ]
        ]
      ]
    ]
  where
    order : (o : ByteOrder) → supported_byte_order o ≡ true
    order little_endian = refl
    order big_endian = refl

    null_sized : (n : ℕ) (m : BytePointer) → Sized n m → (is_null m && n != 0) ≡ true → ⊥
    null_sized n Option.none h e = ground arith
    null_sized n (Option.some bytes) h e = cc

    buildable : 52 ≤ b.capacity → (true ≡ false) ⊎ (true ≡ false) ⊎ (b.capacity < 52) → ⊥
    buildable le (inl e) = cc
    buildable le (inr (inl e)) = cc
    buildable le (inr (inr lt)) = omega (arith, le, lt)
