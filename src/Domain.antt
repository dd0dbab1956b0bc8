-- ===== src/Domain.antt =====
-- include/exsim/common.hpp: sides, commands, events.
use exchange_sim.Base.{
  ℕ, ◌*◌, ◌/◌, ◌^◌, bit_and, ◌==◌, if◌then◌else◌, Bool, not, Option, some, List,
}
use exchange_sim.Base.Int.{ℤ, pos}

pub data Side : Type 0 where
  buy sell : Side

pub data OrdType : Type 0 where
  limit market : OrdType

pub data Tif : Type 0 where
  day ioc fok : Tif

pub data MsgType : Type 0 where
  new_order cancel modify : MsgType

-- Self-trade prevention.
pub data Stp : Type 0 where
  none cancel_resting cancel_incoming decrement_cancel : Stp

pub data EventType : Type 0 where
  accepted rejected trade canceled modified : EventType

pub data Reason : Type 0 where
  none invalid_order_id invalid_qty invalid_price duplicate_order_id unknown_order : Reason
  unknown_symbol would_cross book_full user_canceled ioc_expired fok_unfilled self_trade : Reason
  risk_max_qty risk_max_notional risk_collar risk_rate_limit risk_halted unknown_owner : Reason

abbrev pub flag_post_only : ℕ
flag_post_only = 0x01

abbrev pub stp_shift : ℕ
stp_shift = 1

abbrev pub stp_mask : ℕ
stp_mask = 0x06

-- The number of a mode, as `static_cast` gives it.
unfoldable pub stp_code : Stp → ℕ
stp_code Stp.none = 0
stp_code Stp.cancel_resting = 1
stp_code Stp.cancel_incoming = 2
stp_code Stp.decrement_cancel = 3

unfoldable pub stp_flag : Stp → ℕ
unfolding stp_code
stp_flag s = stp_code s * 2 ^ stp_shift

-- `v` is two bits wide, so the last case is 3.
unfoldable pub effective_stp : ℕ → Stp → Stp
effective_stp flags book_default =
    let v = bit_and flags stp_mask / 2 ^ stp_shift in
    if v == 0
    then book_default
    else if v == 1
    then Stp.cancel_resting
    else if v == 2
    then Stp.cancel_incoming
    else Stp.decrement_cancel

unfoldable pub is_post_only : ℕ → Bool
is_post_only flags = not (bit_and flags flag_post_only == 0)

abbrev pub opposite : Side → Side
opposite Side.buy = Side.sell
opposite Side.sell = Side.buy

pub record Command : Type 0 where
  pub order_id : ℕ
  pub price : ℤ
  pub seq : ℕ
  pub ts : ℕ
  pub qty : ℕ
  pub owner : ℕ
  pub symbol : ℕ
  pub type : MsgType
  pub side : Side
  pub ord_type : OrdType
  pub tif : Tif
  pub flags : ℕ

-- `request` is a byte that only a rejection sets: `none` is the zero of `Event e{}`.
pub record Event : Type 0 where
  pub order_id : ℕ
  pub maker_id : ℕ
  pub price : ℤ
  pub qty : ℕ
  pub leaves : ℕ
  pub symbol : ℕ
  pub type : EventType
  pub reason : Reason
  pub side : Side
  pub request : Option MsgType

-- A sink keeps what it was given, newest first.
abbrev pub Sink : Type 0
Sink = List Event

unfoldable pub accepted_event : ℕ → ℕ → Side → ℤ → ℕ → Event
accepted_event sym id side px qty = record {
  order_id = id;
  maker_id = 0;
  price = px;
  qty = qty;
  leaves = 0;
  symbol = sym;
  type = EventType.accepted;
  reason = Reason.none;
  side = side;
  request = Option.none;
}

unfoldable pub rejected_event : Command → Reason → Event
rejected_event c r = record {
  order_id = c.order_id;
  maker_id = 0;
  price = pos 0;
  qty = 0;
  leaves = 0;
  symbol = c.symbol;
  type = EventType.rejected;
  reason = r;
  side = c.side;
  request = some c.type;
}

unfoldable pub trade_event : ℕ → ℕ → ℕ → Side → ℤ → ℕ → ℕ → Event
trade_event sym taker maker taker_side px qty maker_leaves = record {
  order_id = taker;
  maker_id = maker;
  price = px;
  qty = qty;
  leaves = maker_leaves;
  symbol = sym;
  type = EventType.trade;
  reason = Reason.none;
  side = taker_side;
  request = Option.none;
}

unfoldable pub canceled_event : ℕ → ℕ → Side → ℤ → ℕ → Reason → Event
canceled_event sym id side px qty r = record {
  order_id = id;
  maker_id = 0;
  price = px;
  qty = qty;
  leaves = 0;
  symbol = sym;
  type = EventType.canceled;
  reason = r;
  side = side;
  request = Option.none;
}

unfoldable pub modified_event : ℕ → ℕ → Side → ℤ → ℕ → Event
modified_event sym id side px qty = record {
  order_id = id;
  maker_id = 0;
  price = px;
  qty = qty;
  leaves = 0;
  symbol = sym;
  type = EventType.modified;
  reason = Reason.none;
  side = side;
  request = Option.none;
}

unfoldable pub stp_decrement_event : ℕ → ℕ → Side → ℤ → ℕ → Event
unfolding modified_event
stp_decrement_event sym id side px new_qty = record (modified_event sym id side px new_qty) {
  reason = Reason.self_trade;
}

pub record BookConfig : Type 0 where
  pub min_price : ℤ
  pub num_levels : ℕ
  pub max_orders : ℕ
  pub stp : Stp

pub record OrderView : Type 0 where
  pub price : ℤ
  pub qty : ℕ
  pub side : Side
  pub owner : ℕ
