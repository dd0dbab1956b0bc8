-- ===== src/Risk/Tests.antt =====
-- include/exsim/risk.hpp: a gate of one symbol and two owners.
use exchange_sim.Base.{
  ℕ, ◌+◌, ◌*◌, ◌%◌, ◌^◌, ◌≤◌, ◌≡◌, refl, false, Option, some, arith, List, ◌-◌, [], ◌∷◌,
}
use exchange_sim.Base.Int.{pos, negsuc, ◌-ℤ◌}
use exchange_sim.Domain.{Side, OrdType, Tif, MsgType, Reason, Command, Sink, rejected_event}
use exchange_sim.Risk.{
  RiskConfig, Gate, over_notional, out_of_collar, to_int64, distance, check_rate, arrive, check,
  process,
}
use exchange_sim.Risk.Limits.{Allowed, check-Allowed, process_refused}
use exchange_sim.Risk.Rate.{Action, IsUntil, passes, passes_bound}

-- Ten messages a second, of which three may come at once.
abbrev limits : RiskConfig
limits = record {
  max_qty = 100;
  max_notional = 5000;
  collar_ticks = pos 10;
  max_owners = 2;
  rate_per_sec = 10;
  burst = 3;
  ticks_per_sec = 1000;
}

abbrev gate : Gate
gate = record {
  cfg = limits;
  last_px = pos 95 ∷ [];
  halted = false ∷ [];
  tat = 0 ∷ 0 ∷ [];
  interval = 100;
  rejected = 0;
  halt_all = false;
}

abbrev order : ℕ → ℕ → ℕ → Command
order ts price qty = record {
  order_id = 4;
  price = pos price;
  seq = 1;
  ts = ts;
  qty = qty;
  owner = 1;
  symbol = 0;
  type = MsgType.new_order;
  side = Side.buy;
  ord_type = OrdType.limit;
  tif = Tif.day;
  flags = 0;
}

passes_check : (check (order 7 100 50) gate).0 ≡ Reason.none
unfolding check over_notional out_of_collar to_int64 distance check_rate arrive ◌-ℤ◌
passes_check = refl

is_refused : (check (order 7 100 60) gate).0 ≡ Reason.risk_max_notional
unfolding check over_notional
is_refused = refl

check-Allowed_example : Allowed (order 7 100 50) gate (pos 95)
check-Allowed_example =
    check-Allowed (order 7 100 50) gate (pos 95) refl (omega arith, omega arith) passes_check

-- An engine that counts the commands it gets.
abbrev counter : Command → ℕ → Option (ℕ × Sink)
counter c n = some (n + 1, [])

process_refused_example :
    process counter (order 7 100 60) gate 3 []
    ≡ some (
      record gate { rejected = (0 + 1) % 2 ^ 64 },
      3,
      rejected_event (order 7 100 60) (check (order 7 100 60) gate).0 ∷ [],
    )
process_refused_example =
    process_refused counter (order 7 100 60) gate 3 [] (λ e. cc)
      (λ e. ground (arith, is_refused, e))

-- An order 2^63 below the last trade: the difference is its own negation, and the collar lets it pass.
abbrev far_below : Command
far_below = record (order 7 0 1) { price = negsuc (2 ^ 63 - 96) }

far_below_passes : out_of_collar limits (pos 95) far_below ≡ false
unfolding out_of_collar to_int64 distance ◌-ℤ◌
far_below_passes = refl

-- Five orders of owner 1, one of owner 0 and a cancel, with a halt that ends.
abbrev traffic : List Action
traffic =
    Action.message (order 0 100 1)
    ∷ Action.message (order 0 100 1)
    ∷ Action.message (record (order 10 100 1) { owner = 0 })
    ∷ Action.halting 0
    ∷ Action.message (order 0 100 1)
    ∷ Action.resuming 0
    ∷ Action.message (record (order 0 100 1) { type = MsgType.cancel })
    ∷ Action.message (order 0 100 1)
    ∷ Action.message (order 50 100 1)
    ∷ []

passes_bound_example : 0 + passes counter 1 traffic (gate, 0, []) * 100 ≤ 50 + 3 * 100
unfolding IsUntil
passes_bound_example =
    passes_bound counter 1 50 traffic (gate, 0, []) (ground arith) refl (omega arith) (omega arith)
      (omega arith)
