-- ===== src/Wire/Reports.antt =====
-- include/exsim/protocol.hpp: execution reports, as their list of bytes.
pub mod RoundTrip
use exchange_sim.Base.{ℕ, ◌==◌, if◌then◌else◌, Option, none, some, List, [], ◌∷◌, get_or}
use exchange_sim.Base.Int.{ℤ, pos}
use exchange_sim.Domain.{Event, EventType, Reason, MsgType, Side}
use exchange_sim.Wire.Bytes.{read_le, to_le, read_price, to_price}
use exchange_sim.Wire.{Header, version, read_header, write_header, type_code, side_code, to_side}

abbrev pub report_type : ℕ
report_type = 0x10

-- The event type that says that a command is finished.
abbrev pub report_done : ℕ
report_done = 0xff

abbrev pub report_size : ℕ
report_size = 64

pub record ExecReport : Type 0 where
  pub hdr : Header
  pub order_id : ℕ
  pub maker_id : ℕ
  pub price : ℤ
  pub qty : ℕ
  pub leaves : ℕ
  pub event_type : ℕ
  pub reason : ℕ
  pub side : ℕ
  pub request : ℕ
  pub reserved : ℕ

-- The numbers of the enumerators, and the casts back within range.
abbrev pub event_type_code : EventType → ℕ
event_type_code EventType.accepted = 1
event_type_code EventType.rejected = 2
event_type_code EventType.trade = 3
event_type_code EventType.canceled = 4
event_type_code EventType.modified = 5

abbrev pub to_event_type : ℕ → EventType
to_event_type v =
    if v == 1
    then EventType.accepted
    else if v == 2
    then EventType.rejected
    else if v == 3
    then EventType.trade
    else if v == 4
    then EventType.canceled
    else EventType.modified

abbrev pub reason_code : Reason → ℕ
reason_code Reason.none = 0
reason_code Reason.invalid_order_id = 1
reason_code Reason.invalid_qty = 2
reason_code Reason.invalid_price = 3
reason_code Reason.duplicate_order_id = 4
reason_code Reason.unknown_order = 5
reason_code Reason.unknown_symbol = 6
reason_code Reason.would_cross = 7
reason_code Reason.book_full = 8
reason_code Reason.user_canceled = 9
reason_code Reason.ioc_expired = 10
reason_code Reason.fok_unfilled = 11
reason_code Reason.self_trade = 12
reason_code Reason.risk_max_qty = 13
reason_code Reason.risk_max_notional = 14
reason_code Reason.risk_collar = 15
reason_code Reason.risk_rate_limit = 16
reason_code Reason.risk_halted = 17
reason_code Reason.unknown_owner = 18

-- The reasons, in the order of their numbers.
abbrev pub reasons : List Reason
reasons =
    Reason.none ∷ Reason.invalid_order_id ∷ Reason.invalid_qty ∷ Reason.invalid_price
    ∷ Reason.duplicate_order_id ∷ Reason.unknown_order ∷ Reason.unknown_symbol ∷ Reason.would_cross
    ∷ Reason.book_full ∷ Reason.user_canceled ∷ Reason.ioc_expired ∷ Reason.fok_unfilled
    ∷ Reason.self_trade ∷ Reason.risk_max_qty ∷ Reason.risk_max_notional ∷ Reason.risk_collar
    ∷ Reason.risk_rate_limit ∷ Reason.risk_halted ∷ Reason.unknown_owner ∷ []

abbrev pub to_reason : ℕ → Reason
to_reason v = get_or reasons v Reason.unknown_owner

-- `request` is 0 but for a rejection.
abbrev pub request_code : Option MsgType → ℕ
request_code none = 0
request_code (some t) = type_code t

abbrev pub to_request : ℕ → Option MsgType
to_request v =
    if v == 0
    then none
    else if v == 1
    then some MsgType.new_order
    else if v == 2
    then some MsgType.cancel
    else some MsgType.modify

-- `memcpy` of the struct, in both directions.
unfoldable pub write_report : ExecReport → List ℕ → List ℕ
write_report r rest = write_header r.hdr (
    to_le 8 r.order_id (
      to_le 8 r.maker_id (
        to_price r.price (
          to_le 8 r.qty (
            to_le 8 r.leaves (
              to_le 1 r.event_type (
                to_le 1 r.reason
                  (to_le 1 r.side (to_le 1 r.request (to_le 4 r.reserved rest))))))))))

unfoldable pub read_report : List ℕ → ExecReport
read_report p =
    let h = read_header p in
    let a = read_le 8 h.1 in
    let b = read_le 8 a.1 in
    let c = read_price b.1 in
    let d = read_le 8 c.1 in
    let e = read_le 8 d.1 in
    let f = read_le 1 e.1 in
    let g = read_le 1 f.1 in
    let i = read_le 1 g.1 in
    let j = read_le 1 i.1 in
    let k = read_le 4 j.1 in
    record {
      hdr = h.0;
      order_id = a.0;
      maker_id = b.0;
      price = c.0;
      qty = d.0;
      leaves = e.0;
      event_type = f.0;
      reason = g.0;
      side = i.0;
      request = j.0;
      reserved = k.0;
    }

unfoldable pub report_header : ℕ → ℕ → Header
report_header symbol seq = record {
  length = report_size;
  type = report_type;
  version = version;
  symbol = symbol;
  seq = seq;
}

unfoldable pub report_of : Event → ℕ → ExecReport
report_of e seq = record {
  hdr = report_header e.symbol seq;
  order_id = e.order_id;
  maker_id = e.maker_id;
  price = e.price;
  qty = e.qty;
  leaves = e.leaves;
  event_type = event_type_code e.type;
  reason = reason_code e.reason;
  side = side_code e.side;
  request = request_code e.request;
  reserved = 0;
}

unfoldable pub encode_report : Event → ℕ → List ℕ
encode_report e seq = write_report (report_of e seq) []

unfoldable pub done_report : ℕ → ℕ → ExecReport
done_report symbol seq = record {
  hdr = report_header symbol seq;
  order_id = 0;
  maker_id = 0;
  price = pos 0;
  qty = 0;
  leaves = 0;
  event_type = report_done;
  reason = 0;
  side = 0;
  request = 0;
  reserved = 0;
}

unfoldable pub encode_done : ℕ → ℕ → List ℕ
encode_done symbol seq = write_report (done_report symbol seq) []

-- `none` for a marker that a command is finished.
unfoldable pub report_to_event : ExecReport → Option Event
report_to_event r =
    if r.event_type == report_done
    then none
    else some (record {
      order_id = r.order_id;
      maker_id = r.maker_id;
      price = r.price;
      qty = r.qty;
      leaves = r.leaves;
      symbol = r.hdr.symbol;
      type = to_event_type r.event_type;
      reason = to_reason r.reason;
      side = to_side r.side;
      request = to_request r.request;
    })
