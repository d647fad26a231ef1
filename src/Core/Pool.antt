-- ===== src/Core/Pool.antt =====
-- include/openrtdds/core/static_pool.hpp: fixed-capacity object storage. The capacity is the
-- template's parameter. A slot of `storage` holds the live object built in it, or none.
pub mod Count
pub mod Acquire
pub mod Release
pub mod Clear
mod Tests
use open_rtdds.Prelude.{
  ℕ, zero, suc, Bool, true, false, not, ◌&&◌, List, Option, none, some, ◌==◌, if◌then◌else◌, get_or,
  set, replicate, add64, sub64,
}

pub record StaticPool {ℓ} (A : Type ℓ) : Type ℓ where
  pub storage : List (Option A)
  pub used : List Bool
  pub size : ℕ

-- A `T*`: null, the address of a slot, or an address outside of the pool.
pub data Pointer : Type 0 where
  null elsewhere : Pointer
  at : ℕ → Pointer

abbrev pub points_at : Pointer → ℕ → Bool
points_at null i = false
points_at elsewhere i = false
points_at (at j) i = i == j

abbrev pub is_used : List Bool → ℕ → Bool
is_used used i = get_or used i true

module _ {ℓ} {A : Type ℓ} where
  pub init : ℕ → StaticPool A
  init capacity = record {
    storage = replicate capacity none;
    used = replicate capacity false;
    size = 0;
  }

  -- An object is built in slot `i`, and destroyed there.
  abbrev pub construct : StaticPool A → ℕ → A → StaticPool A
  construct p i a = record {
    storage = set p.storage i (some a);
    used = set p.used i true;
    size = add64 p.size 1;
  }

  abbrev pub destroy : StaticPool A → ℕ → StaticPool A
  destroy p i = record {
    storage = set p.storage i none;
    used = set p.used i false;
    size = sub64 p.size 1;
  }

  -- The loops count the rounds that are left; `index` is the loop variable.
  acquire_loop : ℕ → ℕ → StaticPool A → A → Pointer × StaticPool A
  acquire_loop zero index p a = (null, p)
  acquire_loop (suc rounds) index p a =
      let rest = acquire_loop rounds (suc index) p a in
      if not (is_used p.used index) then (at index, construct p index a) else rest

  release_loop : ℕ → ℕ → StaticPool A → Pointer → Bool × StaticPool A
  release_loop zero index p object = (false, p)
  release_loop (suc rounds) index p object =
      let rest = release_loop rounds (suc index) p object in
      if is_used p.used index && points_at object index then (true, destroy p index) else rest

  -- In the loop of `clear` the counter is left for the end.
  clear_loop : ℕ → ℕ → StaticPool A → StaticPool A
  clear_loop zero index p = p
  clear_loop (suc rounds) index p = clear_loop rounds (suc index) (
      if is_used p.used index
      then record p { storage = set p.storage index none; used = set p.used index false }
      else p)

  module _ (capacity : ℕ) where
    pub acquire : StaticPool A → A → Pointer × StaticPool A
    acquire p a = acquire_loop capacity 0 p a

    pub release : StaticPool A → Pointer → Bool × StaticPool A
    release p null = (false, p)
    release p elsewhere = release_loop capacity 0 p elsewhere
    release p (at i) = release_loop capacity 0 p (at i)

    pub clear : StaticPool A → StaticPool A
    clear p = record (clear_loop capacity 0 p) { size = 0 }
