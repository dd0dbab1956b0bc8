-- ===== src/Capture/Tests.antt =====
-- include/exsim/md.hpp: a capture of one trade, and the seed of a replay.
use exchange_sim.Base.{ℕ, ◌+◌, ◌^◌, ◌<◌, All, arith, ◌≡◌, refl, some, true, List, [], ◌∷◌, drop}
use exchange_sim.Base.Int.{pos}
use exchange_sim.Wire.Bytes.{to_le, to_price, read_le, read_price}
use exchange_sim.Capture.{
  Kind, Record, Loaded, blank, load, load_loop, is_capture, parse, parse_trade, checked, to_kind,
  find_seed, seed_loop, seed_diff, wanted, first_at, last_at,
}
use exchange_sim.Capture.Seeds.{Result, find_seed-Result}

abbrev one_trade : List ℕ
one_trade =
    69
    ∷ 88
    ∷ 77
    ∷ 68
    ∷ to_le 4 1 (
        to_le 4 2 (
          to_le 4 5
            (to_le 4 36 (to_le 4 2 (to_le 8 77 (to_price (pos 300) (to_le 8 4 (to_le 8 1 []))))))))

one_trade_loads :
    load one_trade
    ≡ Loaded.loaded (
        record (blank Kind.trade 77) { trade_px = pos 300; trade_qty = 4; buyer_is_maker = true }
        ∷ [])
unfolding load load_loop is_capture parse parse_trade checked to_kind read_le read_price to_le
    to_price drop
one_trade_loads = refl

abbrev update : ℕ → ℕ → Record
update a b = record (blank Kind.diff 0) { first_id = a; last_id = b }

-- Diffs 0, 1 and 3, and snapshots 2 (too old) and 4.
abbrev stream : List Record
stream = update 11 14 ∷ update 15 20 ∷ update 0 8 ∷ update 21 30 ∷ update 0 16 ∷ []

seed_found : find_seed stream (0 ∷ 1 ∷ 3 ∷ []) (2 ∷ 4 ∷ []) 0 ≡ some (4, 1)
unfolding find_seed seed_loop seed_diff wanted first_at last_at drop
seed_found = refl

last_ids : All (λ (s : ℕ). last_at stream s + 1 < 2 ^ 64) (2 ∷ 4 ∷ [])
unfolding last_at
last_ids = (omega arith, (omega arith, tt))

find_seed-Result_example :
    Result stream
      (drop 0 (0 ∷ 1 ∷ 3 ∷ []))
      (2 ∷ 4 ∷ [])
      (find_seed stream (0 ∷ 1 ∷ 3 ∷ []) (2 ∷ 4 ∷ []) 0)
find_seed-Result_example = find_seed-Result stream (0 ∷ 1 ∷ 3 ∷ []) (2 ∷ 4 ∷ []) 0 last_ids
