-- ===== src/Core/Pool/Tests.antt =====
-- A pool of two bytes.
use open_rtdds.Prelude.{ℕ, ◌≡◌, ◌↔◌, refl, false, arith}
use open_rtdds.Core.Pool.{acquire_loop, StaticPool, null, at, init, acquire, release}
use open_rtdds.Core.Pool.Acquire.{IsValid, Acquired, acquire_lem}
use open_rtdds.Core.Pool.Release.{Released, release_lem}
use open_rtdds.Core.Pool.Clear.{init-IsValid}

abbrev pool : StaticPool ℕ
pool = init 2

pool-IsValid : IsValid 2 pool
pool-IsValid = init-IsValid 2 (omega arith)

taken-IsValid : IsValid 2 (acquire 2 pool 7).1
taken-IsValid = (acquire_lem 7 pool-IsValid).1

acquire_second : (acquire 2 (acquire 2 pool 7).1 8).0 ≡ at 1
unfolding init acquire acquire_loop
acquire_second = refl

acquire_full : (acquire 2 (acquire 2 (acquire 2 pool 7).1 8).1 9).0 ≡ null
unfolding init acquire acquire_loop
acquire_full = refl

acquire_lem_example :
    Acquired 2 pool 7 (acquire 2 pool 7)
    × IsValid 2 (acquire 2 pool 7).1
    × (((acquire 2 pool 7).0 ≡ null) ↔ (pool.size ≡ 2))
acquire_lem_example = acquire_lem 7 pool-IsValid

release_lem_example :
    Released 2 (acquire 2 pool 7).1 (at 0) (release 2 (acquire 2 pool 7).1 (at 0))
    × IsValid 2 (release 2 (acquire 2 pool 7).1 (at 0)).1
    × ((release 2 (release 2 (acquire 2 pool 7).1 (at 0)).1 (at 0)).0 ≡ false)
release_lem_example = release_lem (at 0) taken-IsValid
