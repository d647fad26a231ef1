-- ===== src/Serialization/Bytes.antt =====
-- Raw bytes: what `write_bytes` writes, `read_bytes` reads.
use open_rtdds.Prelude.{
  ℕ, ◌+◌, ◌≤◌, ◌<◌, ◌≡◌, refl, sym, ap, ap₂, subst, ◌∙◌, true, false, List, Option, arith,
  BytePointer, inl, inr, add64, if◌then◌else◌, ◌!=◌, length, take, get_or,
}
use open_rtdds.Serialization.Cdr.{byte_at, copy_to}
use open_rtdds.Serialization.Copies.{copied, Copied, copied-Copied, bytes_from_eq, length-take_le}
use open_rtdds.Serialization.Writer
use open_rtdds.Serialization.Writer.{CdrWriter, reserve, write_bytes}
use open_rtdds.Serialization.Reader
use open_rtdds.Serialization.Reader.{CdrReader, read_bytes, bytes_from}
use open_rtdds.Serialization.Written.{
  Ready, Written, padded, reader_at, reserve_cases, locate-Reserved,
}

finish_none :
    (source : BytePointer) (size : ℕ) (p : Option ℕ × CdrWriter)
    → p.0 ≡ Option.none
    → (Writer.finish_bytes source size p).0 ≡ false
finish_none source size (Option.none, w) e = refl
finish_none source size (Option.some s, w) e = cc

-- The memory behind a destination of at least `size` bytes after `size` bytes are copied there.
abbrev pub received_bytes : BytePointer → List ℕ → ℕ → BytePointer
received_bytes destination source size =
    if size != 0 then copy_to destination 0 (take size source) else destination

pub write_bytes-Written :
    {w : CdrWriter} (source : List ℕ) (size : ℕ) (destination : List ℕ)
    → Ready w
    → size ≤ length source
    → (write_bytes w (Option.some source) size).0 ≡ true
    → Written w
        (write_bytes w (Option.some source) size).1
        (λ r. read_bytes r (Option.some destination) size)
        (Option.some (received_bytes (Option.some destination) source size))
unfolding write_bytes read_bytes
write_bytes-Written {w} source size destination v le ok = elim (reserve_cases 1 size v) [
  | inl none ↦
      absurd (ground (arith, ok, finish_none (Option.some source) size (reserve w 1 size) none))
  | inr (start, e, q) ↦
      let end : add64 start size ≡ start + size = omega (arith, q.fits, v.small) in
      let len : length (take size source) ≡ size = length-take_le size source le in
      let c : Copied w.capacity start (take size source) (padded w start).buffer
          (copied size (padded w start).buffer start (take size source)) =
        subst
          (λ n.
            Copied w.capacity start (take size source) (padded w start).buffer
              (copied n (padded w start).buffer start (take size source)))
          len
          (copied-Copied w.capacity start (take size source) (padded w start).buffer q.sized
            (omega (arith, q.fits, len))) in
      rw e (record {
        advances = omega (arith, q.offset_le, end);
        keeps = λ i lt. sym (c.below i (omega (arith, q.offset_le)) ∙ q.keeps i lt);
        ready = record {
          small = v.small;
          sized = c.sized;
          offset_le = omega (arith, q.fits, end);
          good = v.good;
          initialized = v.initialized;
        };
        reads = λ memory bound_size agree le' bound.
            ap (Reader.finish_bytes (Option.some destination) size)
              (locate-Reserved memory bound_size q (omega (arith, end)) bound)
            ∙ ap₂
                (λ bytes m. (
                  Option.some (
                      if size != 0
                      then copy_to (Option.some destination) 0 bytes
                      else Option.some destination),
                  record (reader_at w memory bound_size) { offset = m },
                ))
                (read_back memory start
                  (λ i lt.
                    sym (agree (start + i) (omega (arith, end, len)))
                    ∙ c.inside i (omega (arith, len)))
                  len)
                (sym end);
      })
]
  where
    read_back :
        (memory : BytePointer) (start : ℕ)
        → ((i : ℕ)
            → i < length (take size source)
            → byte_at memory (start + i) ≡ get_or (take size source) i 0)
        → length (take size source) ≡ size
        → bytes_from memory start size ≡ take size source
    read_back memory start h len =
        ap (bytes_from memory start) (sym len) ∙ bytes_from_eq memory start (take size source) h
