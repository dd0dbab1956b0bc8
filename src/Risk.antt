-- ===== src/Risk.antt =====
-- include/exsim/risk.hpp: the pre-trade risk gate in front of an engine.
-- The engine is the template parameter, a function that returns its new state and its events,
-- newest first; `none` is a fault of it. The events go on to the inner sink and, through the tap,
-- into the last trade prices.
pub mod Limits
pub mod Arrivals
pub mod Rate
pub mod Tests
use exchange_sim.Base.{
  ℕ, zero, suc, ◌+◌, ◌-◌, ◌*◌, ◌/◌, ◌%◌, ◌^◌, ltb, leb, ◌==◌, if◌then◌else◌, Bool, true, false, not,
  ◌&&◌, ◌||◌, max, Option, none, some, List, [], ◌∷◌, ◌++◌, get_elem?, get_or, set, length,
  replicate,
}
use exchange_sim.Base.Int.{ℤ, pos, negsuc, pos_part, neg_part, ◌-ℤ◌, ltb_ℤ}
use exchange_sim.Domain.{Command, Event, EventType, MsgType, OrdType, Sink, Reason, rejected_event}

pub record RiskConfig : Type 0 where
  pub max_qty : ℕ
  pub max_notional : ℕ
  pub collar_ticks : ℤ
  pub max_owners : ℕ
  pub rate_per_sec : ℕ
  pub burst : ℕ
  pub ticks_per_sec : ℕ

-- The members of the gate but the engine.
pub record Gate : Type 0 where
  pub cfg : RiskConfig
  pub last_px : List ℤ
  pub halted : List Bool
  pub tat : List ℕ
  pub interval : ℕ
  pub rejected : ℕ
  pub halt_all : Bool

unfoldable pub new : ℕ → RiskConfig → Gate
new num_symbols cfg = record {
  cfg = cfg;
  last_px = replicate num_symbols (pos 0);
  halted = replicate num_symbols false;
  tat = replicate cfg.max_owners 0;
  interval = if cfg.rate_per_sec == 0 then 0 else cfg.ticks_per_sec / cfg.rate_per_sec;
  rejected = 0;
  halt_all = false;
}

-- A symbol out of range changes nothing, as a write out of range does.
unfoldable pub halt : ℕ → Gate → Gate
halt s g = record g { halted = set g.halted s true }

unfoldable pub resume : ℕ → Gate → Gate
resume s g = record g { halted = set g.halted s false }

unfoldable pub set_halt_all : Bool → Gate → Gate
set_halt_all on g = record g { halt_all = on }

abbrev pub is_priced : Command → Bool
is_priced c = elim c.type [
  | MsgType.modify ↦ true
  | _ ↦ elim c.ord_type [ OrdType.limit ↦ true | OrdType.market ↦ false ]
]

-- `price > max / qty` for `price * qty > max`; a negative price counts as 0.
unfoldable pub over_notional : RiskConfig → Command → Bool
over_notional cfg c =
    is_priced c
    && (not (cfg.max_notional == 0)
        && (not (c.qty == 0) && ltb (cfg.max_notional / c.qty) (pos_part c.price)))

-- A difference of 64-bit prices, wrapped to 64 bits in two's complement.
unfoldable pub to_int64 : ℤ → ℤ
to_int64 (pos n) = let w = n % 2 ^ 64 in if ltb w (2 ^ 63) then pos w else negsuc (2 ^ 64 - 1 - w)
to_int64 (negsuc n) =
    let w = n % 2 ^ 64 in if ltb w (2 ^ 63) then negsuc w else pos (2 ^ 64 - 1 - w)

-- `d < 0 ? -d : d` for the difference of two prices: -2^63 is its own negation.
unfoldable pub distance : ℤ → ℤ → ℤ
distance p q = let d = to_int64 (p -ℤ q) in if ltb_ℤ d (pos 0) then to_int64 (pos 0 -ℤ d) else d

abbrev pub is_zero : ℤ → Bool
is_zero p = pos_part p + neg_part p == 0

unfoldable pub out_of_collar : RiskConfig → ℤ → Command → Bool
out_of_collar cfg last c =
    is_priced c
    && (not (is_zero cfg.collar_ticks)
        && (not (is_zero last) && ltb_ℤ cfg.collar_ticks (distance c.price last)))

-- `burst` messages may arrive together. The products and sums are 64 bits wide.
abbrev pub slack : RiskConfig → ℕ → ℕ
slack cfg interval = interval * (if cfg.burst == 0 then 0 else cfg.burst - 1) % 2 ^ 64

abbrev pub allowed_from : ℕ → ℕ → ℕ
allowed_from tat sl = if ltb sl tat then tat - sl else 0

-- The rate limit of one owner: its new theoretical arrival time, or a refusal.
unfoldable pub arrive : RiskConfig → ℕ → ℕ → ℕ → Option ℕ
arrive cfg interval tat ts =
    if ltb ts (allowed_from tat (slack cfg interval))
    then none
    else some ((max ts tat + interval) % 2 ^ 64)

-- The last part of `check`, on the owner.
unfoldable pub check_rate : Command → Gate → Reason × Gate
check_rate c g =
    if leb g.cfg.max_owners c.owner
    then (Reason.unknown_owner, g)
    else if g.interval == 0
    then (Reason.none, g)
    else elim (arrive g.cfg g.interval (get_or g.tat c.owner 0) c.ts) [
      | none ↦ (Reason.risk_rate_limit, g)
      | some t ↦ (Reason.none, record g { tat = set g.tat c.owner t })
    ]

-- `check` is called on new orders and modifies only, so its test of the type always holds.
unfoldable pub check : Command → Gate → Reason × Gate
check c g = elim (get_elem? g.last_px c.symbol) [
  | none ↦ (Reason.none, g)
  | some last ↦
      if g.halt_all || get_or g.halted c.symbol false
      then (Reason.risk_halted, g)
      else if ltb g.cfg.max_qty c.qty
      then (Reason.risk_max_qty, g)
      else if over_notional g.cfg c
      then (Reason.risk_max_notional, g)
      else if out_of_collar g.cfg last c
      then (Reason.risk_collar, g)
      else check_rate c g
]

-- `Tap::on_event`, and over the events of one command, oldest first.
unfoldable pub tap : Event → List ℤ → List ℤ
tap e px = elim e.type [ EventType.trade ↦ set px e.symbol e.price | _ ↦ px ]

unfoldable pub tap_all : Sink → List ℤ → List ℤ
tap_all [] px = px
tap_all (e ∷ s) px = tap e (tap_all s px)

module _ {E : Type 0} (engine : Command → E → Option (E × Sink)) where
  unfoldable pub pass_on : Command → Gate → E → Sink → Option (Gate × E × Sink)
  pass_on c g e sink = elim (engine c e) [
    | none ↦ none
    | some (e', events) ↦ some (record g { last_px = tap_all events g.last_px }, e', events ++ sink)
  ]

  -- A refusal is counted and reported; the engine does not see the command.
  unfoldable pub verdict : Reason × Gate → Command → E → Sink → Option (Gate × E × Sink)
  verdict (Reason.none, g) c e sink = pass_on c g e sink
  verdict (r, g) c e sink =
      some (record g { rejected = (g.rejected + 1) % 2 ^ 64 }, e, rejected_event c r ∷ sink)

  unfoldable pub process : Command → Gate → E → Sink → Option (Gate × E × Sink)
  process c g e sink = elim c.type [
    | MsgType.cancel ↦ pass_on c g e sink
    | _ ↦ verdict (check c g) c e sink
  ]
