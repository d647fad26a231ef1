-- ===== src/Serialization/Integers.antt =====
-- Integers and Booleans: what the writer's operations write, the reader's read.
use open_rtdds.Prelude.{
  ℕ, ◌+◌, ◌*◌, ◌^◌, ◌≤◌, ◌<◌, ◌≡◌, refl, sym, ap, ap₂, ◌∙◌, Bool, true, false, Option, arith, inl,
  inr, add64,
}
use native.Mathlib.Nat.{mod-eq_of_lt}
use open_rtdds.Serialization.Integral.{
  store_integral, load_integral_stored, Stored, store_loop-Stored,
}
use open_rtdds.Serialization.Writer
use open_rtdds.Serialization.Writer.{CdrWriter, reserve, write_integral, write_bool}
use open_rtdds.Serialization.Reader
use open_rtdds.Serialization.Reader.{CdrReader, read_integral, read_bool, narrowed}
use open_rtdds.Serialization.Written.{
  Ready, Written, Reserved, padded, reader_at, reserve_cases, locate-Reserved,
}

-- An integral that is stored at a reserved place.
pub store_integral-Stored :
    {w : CdrWriter} {alignment room start : ℕ} (value width : ℕ)
    → width ≤ room
    → Reserved w alignment room start
    → Stored w.capacity w.byte_order width width 0 start value
        (padded w start).buffer
        (store_integral w.byte_order start value width (padded w start).buffer)
unfolding store_integral
store_integral-Stored {w} {alignment} {room} {start} value width le q =
    store_loop-Stored w.capacity w.byte_order width width 0 start value (padded w start).buffer
      q.sized (omega (arith, q.fits))

finish_none :
    (value width : ℕ) (p : Option ℕ × CdrWriter)
    → p.0 ≡ Option.none
    → (Writer.finish_integral value width p).0 ≡ false
finish_none value width (Option.none, w) e = refl
finish_none value width (Option.some s, w) e = cc

pub write_integral-Written :
    {w : CdrWriter} (value width alignment : ℕ)
    → Ready w
    → value < 2 ^ 64
    → value < 2 ^ (width * 8)
    → (write_integral w value width alignment).0 ≡ true
    → Written w
        (write_integral w value width alignment).1
        (λ r. read_integral r width alignment)
        (Option.some value)
unfolding write_integral read_integral
write_integral-Written {w} value width alignment v small fits ok =
    elim (reserve_cases alignment width v) [
      | inl none ↦
          absurd (ground (arith, ok, finish_none value width (reserve w alignment width) none))
      | inr (start, e, q) ↦
          let s = store_integral-Stored value width (omega arith) q in
          let end : add64 start width ≡ start + width = omega (arith, q.fits, v.small) in
          rw e (record {
            advances = omega (arith, q.offset_le, end);
            keeps = λ i lt. sym (s.below i (omega (arith, q.offset_le)) ∙ q.keeps i lt);
            ready = record {
              small = v.small;
              sized = s.sized;
              offset_le = omega (arith, q.fits, end);
              good = v.good;
              initialized = v.initialized;
            };
            reads = λ memory size agree le bound.
                ap (Reader.finish_integral width)
                  (locate-Reserved memory size q (omega (arith, end)) bound)
                ∙ ap₂ (λ n m. (Option.some n, record (reader_at w memory size) { offset = m }))
                    (load_integral_stored w.byte_order width value start memory small fits (λ i lt.
                      sym (agree (start + i) (omega (arith, end)))
                      ∙ s.inside i (omega arith) (omega arith)))
                    (sym end);
          })
    ]

-- A narrower read.
pub narrowed-Written :
    {w w1 : CdrWriter} {read : CdrReader → Option ℕ × CdrReader} {value : ℕ} (bits : ℕ)
    → value < 2 ^ bits
    → Written w w1 read (Option.some value)
    → Written w w1 (λ r. narrowed bits (read r)) (Option.some value)
narrowed-Written {w} {w1} {read} {value} bits small h = record {
  advances = h.advances;
  keeps = h.keeps;
  ready = h.ready;
  reads = λ memory size agree le bound.
      ap (narrowed bits) (h.reads memory size agree le bound)
      ∙ ap (λ n. (Option.some n, reader_at w1 memory size)) (mod-eq_of_lt small);
}

-- What `write_bool` writes, `read_bool` reads.
pub write_bool-Written :
    {w : CdrWriter} (value : Bool)
    → Ready w
    → (write_bool w value).0 ≡ true
    → Written w (write_bool w value).1 read_bool (Option.some value)
unfolding read_bool
write_bool-Written {w} true v ok =
    let h =
      narrowed-Written 8 (omega arith)
        (write_integral-Written 1 1 1 v (omega arith) (omega arith) ok) in
    record {
      advances = h.advances;
      keeps = h.keeps;
      ready = h.ready;
      reads = λ memory size agree le bound.
          ap (Reader.finish_bool w.offset) (h.reads memory size agree le bound);
    }
write_bool-Written {w} false v ok =
    let h =
      narrowed-Written 8 (omega arith)
        (write_integral-Written 0 1 1 v (omega arith) (omega arith) ok) in
    record {
      advances = h.advances;
      keeps = h.keeps;
      ready = h.ready;
      reads = λ memory size agree le bound.
          ap (Reader.finish_bool w.offset) (h.reads memory size agree le bound);
    }
