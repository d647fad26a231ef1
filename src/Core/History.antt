-- ===== src/Core/History.antt =====
-- include/openrtdds/core/keep_last_history.hpp: a bounded sample, and the fixed-capacity KEEP_LAST
-- history over an array that wraps round. Capacities are the template's parameters.
pub mod Invariant
pub mod Window
pub mod Ends
pub mod Refine
mod Tests
use open_rtdds.Prelude.{
  ℕ, ◌-◌, ◌%◌, Bool, true, false, ◌&&◌, List, Option, arith, ltb, ◌==◌, ◌!=◌, if◌then◌else◌, length,
  get_or, set, take, replicate, blit, add64, sub64, BytePointer,
}

pub data HistoryError : Type 0 where
  none invalid_argument payload_too_large : HistoryError

pub record SampleMetadata : Type 0 where
  pub sequence_number : ℕ
  pub source_timestamp_ns : ℕ

-- `payload` is the whole array of the sample, of which the first `size` bytes are in use.
pub record BoundedSample : Type 0 where
  pub payload : List ℕ
  pub size : ℕ
  pub metadata : SampleMetadata

abbrev pub no_metadata : SampleMetadata
no_metadata = record { sequence_number = 0; source_timestamp_ns = 0 }

abbrev pub is_null : BytePointer → Bool
is_null Option.none = true
is_null (Option.some bytes) = false

-- The bytes that memcpy reads: the first `n` behind the pointer.
abbrev pub pointed : BytePointer → ℕ → List ℕ
pointed Option.none n = List.[]
pointed (Option.some bytes) n = take n bytes

abbrev pub empty_sample : ℕ → BoundedSample
empty_sample max = record { payload = replicate max 0; size = 0; metadata = no_metadata }

unfoldable pub assign :
    ℕ → BoundedSample → BytePointer → ℕ → SampleMetadata → HistoryError × BoundedSample
assign max sample payload payload_size metadata =
    if is_null payload && payload_size != 0
    then (invalid_argument, sample)
    else if ltb max payload_size
    then (payload_too_large, sample)
    else (
      none,
      record {
        payload =
            if payload_size != 0
            then blit sample.payload 0 (pointed payload payload_size)
            else sample.payload;
        size = payload_size;
        metadata = metadata;
      },
    )

pub record KeepLastHistory : Type 0 where
  pub samples : List BoundedSample
  pub size : ℕ
  pub oldest_index : ℕ
  pub write_index : ℕ

abbrev pub is_empty : KeepLastHistory → Bool
is_empty h = h.size == 0

pub oldest : ℕ → KeepLastHistory → Option BoundedSample
oldest max h =
    if is_empty h
    then Option.none
    else Option.some (get_or h.samples h.oldest_index (empty_sample max))

pub clear : KeepLastHistory → KeepLastHistory
clear h = record h { size = 0; oldest_index = 0; write_index = 0 }

module _ (depth : ℕ) where
  abbrev pub increment : ℕ → ℕ
  increment index = add64 index 1 % depth

  pub init : ℕ → KeepLastHistory
  init max = record {
    samples = replicate depth (empty_sample max);
    size = 0;
    oldest_index = 0;
    write_index = 0;
  }

  abbrev pub full : KeepLastHistory → Bool
  full h = h.size == depth

  pub newest : ℕ → KeepLastHistory → Option BoundedSample
  newest max h =
      if is_empty h
      then Option.none
      else Option.some (
          get_or h.samples (if h.write_index == 0 then depth - 1 else h.write_index - 1)
            (empty_sample max))

  pub pop_oldest : KeepLastHistory → Bool × KeepLastHistory
  pop_oldest h =
      if is_empty h
      then (false, h)
      else (true, record h { oldest_index = increment h.oldest_index; size = sub64 h.size 1 })

  -- The indices after a sample has been stored at `write_index`.
  advance : KeepLastHistory → List BoundedSample → KeepLastHistory
  advance h samples = record {
    samples = samples;
    size = if full h then h.size else add64 h.size 1;
    oldest_index = if full h then increment h.oldest_index else h.oldest_index;
    write_index = increment h.write_index;
  }

  abbrev stored : KeepLastHistory → HistoryError × BoundedSample → HistoryError × KeepLastHistory
  stored h (none, sample) = (none, advance h (set h.samples h.write_index sample))
  stored h (error, sample) = (error, h)

  pub push : ℕ → KeepLastHistory → BytePointer → ℕ → SampleMetadata → HistoryError × KeepLastHistory
  push max h payload payload_size metadata =
      if is_null payload && payload_size != 0
      then (invalid_argument, h)
      else if ltb max payload_size
      then (payload_too_large, h)
      else stored h (
          assign max (get_or h.samples h.write_index (empty_sample max)) payload payload_size
            metadata)
