-- ===== src/Capture/Loading.antt =====
-- include/exsim/md.hpp: the loading of a capture ends.
use exchange_sim.Base.{ℕ, zero, suc, ◌+◌, ◌<◌, ◌≢◌, List, length, drop, arith, length-drop}
use exchange_sim.Wire.Bytes.{read_le}
use exchange_sim.Capture.{Record, Loaded, push_front, load_loop, load}

push_front-ends :
    (r : Record) (l : Loaded) → l ≢ Loaded.out_of_fuel → push_front r l ≢ Loaded.out_of_fuel
push_front-ends r (Loaded.loaded rs) h = λ e. cc
push_front-ends r Loaded.throws h = λ e. cc
push_front-ends r Loaded.out_of_fuel h = h

-- The loop ends when the fuel exceeds the bytes.
load_loop-ends : (fuel : ℕ) (p : List ℕ) → length p < fuel → load_loop fuel p ≢ Loaded.out_of_fuel
unfolding load_loop
load_loop-ends zero p h = absurd (omega arith)
load_loop-ends (suc fuel) p h = ground (
  arith,
  length-drop (4 + (read_le 4 p).0) p,
  load_loop-ends fuel (drop (4 + (read_le 4 p).0) p),
  λ (r : Record). push_front-ends r (load_loop fuel (drop (4 + (read_le 4 p).0) p)),
)

-- A capture is loaded or refused, whatever its bytes.
pub load_ends : (buf : List ℕ) → load buf ≢ Loaded.out_of_fuel
unfolding load
load_ends buf = ground (arith, length-drop 16 buf, load_loop-ends (length buf + 1) (drop 16 buf))
