-- ===== src/Core/History/Invariant.antt =====
-- The representation invariant of the KEEP_LAST history: indices in range, no wrap of `size_t`.
use open_rtdds.Prelude.{
  ℕ, ◌+◌, ◌-◌, ◌%◌, ◌≤◌, ◌<◌, ◌^◌, ◌≡◌, ap, arith, length, get_or, set, BytePointer, List,
  length-set, length-blit, length-replicate, get_or-replicate, get_or-set_self, get_or-set_ne,
  Option, ℕ_discrete,
}
use open_rtdds.Prelude.Modular.{mod-add_left}
use open_rtdds.Core.History.{
  SampleMetadata, BoundedSample, KeepLastHistory, empty_sample, assign, pointed, init, push,
  pop_oldest, clear, advance, increment,
}

-- `n` bytes can be read behind the pointer, if it is one.
abbrev pub IsReadable : BytePointer → ℕ → Type 0
IsReadable Option.none n = Unit {0}
IsReadable (Option.some bytes) n = n ≤ length bytes

pub record IsValid (depth max : ℕ) (h : KeepLastHistory) : Type 0 where
  pub depth_pos : 0 < depth
  pub depth_small : depth < 2 ^ 64
  pub storage : length h.samples ≡ depth
  pub payloads : (i : ℕ) → length (get_or h.samples i (empty_sample max)).payload ≡ max
  pub size_le : h.size ≤ depth
  pub oldest_lt : h.oldest_index < depth
  pub write : h.write_index ≡ (h.oldest_index + h.size) % depth

pub increment_eq : (depth i : ℕ) → depth < 2 ^ 64 → i < depth → increment depth i ≡ (i + 1) % depth
increment_eq depth i small lt = ap (λ k. k % depth) (omega arith)

-- What `assign` leaves of a sample has the size of its array.
pub assign-payload :
    (max : ℕ) (s : BoundedSample) (p : BytePointer) (n : ℕ) (m : SampleMetadata)
    → length s.payload ≡ max
    → length (assign max s p n m).1.payload ≡ max
unfolding assign
assign-payload max s p n m h = ground (arith, length-blit s.payload 0 (pointed p n))

set-payloads :
    (max : ℕ) (xs : List BoundedSample) (j : ℕ) (s : BoundedSample)
    → ((i : ℕ) → length (get_or xs i (empty_sample max)).payload ≡ max)
    → length s.payload ≡ max
    → j < length xs
    → (i : ℕ) → length (get_or (set xs j s) i (empty_sample max)).payload ≡ max
set-payloads max xs j s all hs lt i = elim (ℕ_discrete j i) [
  | yes e ↦ ground (arith, get_or-set_self xs j s (empty_sample max) lt)
  | no ne ↦ ground (arith, get_or-set_ne xs j i s (empty_sample max) ne, all i)
]

pub write-lt : {depth max : ℕ} {h : KeepLastHistory} → IsValid depth max h → h.write_index < depth
write-lt v = omega arith

-- Both indices move on by one place.
advance_write :
    (depth o s w : ℕ) → w ≡ (o + s) % depth → (w + 1) % depth ≡ ((o + 1) % depth + s) % depth
advance_write depth o s w e =
    rw (e, mod-add_left (o + s) 1 depth, mod-add_left (o + 1) s depth)
      (ap (λ k. k % depth) (omega arith))

module _ {depth max : ℕ} where
  pub init-IsValid : 0 < depth → depth < 2 ^ 64 → IsValid depth max (init depth max)
  unfolding init
  init-IsValid pos small = record {
    depth_pos = pos;
    depth_small = small;
    storage = length-replicate depth _;
    payloads = λ i.
        ground (arith, get_or-replicate depth i (empty_sample max), length-replicate {A = ℕ} max 0);
    size_le = omega arith;
    oldest_lt = omega arith;
    write = omega arith;
  }

  advance-IsValid :
      {h : KeepLastHistory} (s : BoundedSample)
      → IsValid depth max h
      → length s.payload ≡ max
      → IsValid depth max (advance depth h (set h.samples h.write_index s))
  unfolding advance
  advance-IsValid {h} s v hs = record {
    depth_pos = v.depth_pos;
    depth_small = v.depth_small;
    storage = ground (arith, length-set h.samples h.write_index s, v.storage);
    payloads = set-payloads max h.samples h.write_index s v.payloads hs (omega (arith, write-lt v));
    size_le = ground arith;
    oldest_lt = ground arith;
    write = ground (
      arith,
      increment_eq depth h.write_index v.depth_small (write-lt v),
      increment_eq depth h.oldest_index v.depth_small v.oldest_lt,
      advance_write depth h.oldest_index h.size h.write_index v.write,
      mod-add_left (h.oldest_index + h.size) 1 depth,
    );
  }

  pub push-IsValid :
      {h : KeepLastHistory} (p : BytePointer) (n : ℕ) (m : SampleMetadata)
      → IsValid depth max h
      → IsValid depth max (push depth max h p n m).1
  unfolding push
  push-IsValid {h} p n m v = ground (
    arith,
    advance-IsValid (assign max (get_or h.samples h.write_index (empty_sample max)) p n m).1 v,
    assign-payload max (get_or h.samples h.write_index (empty_sample max)) p n m,
    v.payloads h.write_index,
  )

  pub pop_oldest-IsValid :
      {h : KeepLastHistory} → IsValid depth max h → IsValid depth max (pop_oldest depth h).1
  unfolding pop_oldest
  pop_oldest-IsValid {h} v = ground (
    arith,
    increment_eq depth h.oldest_index,
    mod-add_left (h.oldest_index + 1) (h.size - 1) depth,
  )

  pub clear-IsValid : {h : KeepLastHistory} → IsValid depth max h → IsValid depth max (clear h)
  unfolding clear
  clear-IsValid v = record {
    depth_pos = v.depth_pos;
    depth_small = v.depth_small;
    storage = v.storage;
    payloads = v.payloads;
    size_le = omega arith;
    oldest_lt = v.depth_pos;
    write = omega arith;
  }
