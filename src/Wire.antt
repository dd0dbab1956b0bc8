-- ===== src/Wire.antt =====
-- include/exsim/protocol.hpp: the codec of the binary order-entry messages. A message is its list
-- of bytes.
pub mod Bytes
mod Messages
pub mod RoundTrip
pub mod Framing
pub mod Reports
pub mod Tests
use exchange_sim.Base.{
  ℕ, ltb, ◌==◌, if◌then◌else◌, not, ◌||◌, Option, none, some, List, [], ◌++◌, length,
}
use exchange_sim.Base.Int.{ℤ, pos}
use exchange_sim.Domain.{Side, OrdType, Tif, MsgType, Command}
use Bytes.{read_le, to_le, read_price, to_price}
unfoldable pub use Messages.*

pub data DecodeStatus : Type 0 where
  ok incomplete malformed : DecodeStatus

-- The result, with the command of an `ok` one. Callers do not read `out` otherwise.
pub record DecodeResult : Type 0 where
  pub status : DecodeStatus
  pub consumed : ℕ
  pub out : Option Command

abbrev pub incomplete_result : DecodeResult
incomplete_result = record { status = incomplete; consumed = 0; out = none }

abbrev pub bad : ℕ → DecodeResult
bad n = record { status = malformed; consumed = n; out = none }

abbrev pub good : ℕ → Command → DecodeResult
good n c = record { status = ok; consumed = n; out = some c }

-- `Command{}` with the fields that every message sets.
abbrev pub blank : Header → MsgType → ℕ → Command
blank h type id = record {
  order_id = id;
  price = pos 0;
  seq = h.seq;
  ts = 0;
  qty = 0;
  owner = 0;
  symbol = h.symbol;
  type = type;
  side = Side.buy;
  ord_type = OrdType.limit;
  tif = Tif.day;
  flags = 0;
}

-- The cases of the switch.
unfoldable pub decode_new_order : Header → List ℕ → DecodeResult
decode_new_order h p =
    if not (h.length == new_order_size)
    then bad h.length
    else let m = read_new_order h p in
      if ltb 1 m.side || (ltb 1 m.ord_type || ltb 2 m.tif)
      then bad h.length
      else good h.length (record (blank h MsgType.new_order m.order_id) {
        price = m.price;
        qty = m.qty;
        owner = m.owner;
        side = to_side m.side;
        ord_type = to_ord_type m.ord_type;
        tif = to_tif m.tif;
        flags = m.flags;
      })

unfoldable pub decode_cancel : Header → List ℕ → DecodeResult
decode_cancel h p =
    if not (h.length == cancel_size)
    then bad h.length
    else good h.length (blank h MsgType.cancel (read_cancel h p).order_id)

unfoldable pub decode_modify : Header → List ℕ → DecodeResult
decode_modify h p =
    if not (h.length == modify_size)
    then bad h.length
    else let m = read_modify h p in
      good h.length (record (blank h MsgType.modify m.order_id) { price = m.price; qty = m.qty })

unfoldable pub decode_body : Header → List ℕ → DecodeResult
decode_body h p =
    if h.type == 1
    then decode_new_order h p
    else if h.type == 2
    then decode_cancel h p
    else if h.type == 3
    then decode_modify h p
    else bad h.length

-- `decode_framed` is `decode` once the header is read.
unfoldable pub decode_framed : ℕ → Header → List ℕ → DecodeResult
decode_framed avail h p =
    if ltb h.length header_size
    then bad 0
    else if ltb avail h.length
    then incomplete_result
    else if not (h.version == version)
    then bad h.length
    else decode_body h p

unfoldable pub decode : List ℕ → DecodeResult
decode p =
    if ltb (length p) header_size
    then incomplete_result
    else let h = read_header p in decode_framed (length p) h.0 h.1

abbrev pub header_of : ℕ → Command → Header
header_of len c = record {
  length = len;
  type = type_code c.type;
  version = version;
  symbol = c.symbol;
  seq = c.seq;
}

abbrev pub new_order_of : Command → NewOrder
new_order_of c = record {
  hdr = header_of new_order_size c;
  order_id = c.order_id;
  price = c.price;
  qty = c.qty;
  owner = c.owner;
  side = side_code c.side;
  ord_type = ord_type_code c.ord_type;
  tif = tif_code c.tif;
  flags = c.flags;
}

-- The bytes that `encode` writes, in front of what follows in the buffer.
unfoldable pub encode : Command → List ℕ → List ℕ
encode c rest = elim c.type [
  | MsgType.new_order ↦ write_new_order (new_order_of c) rest
  | MsgType.cancel ↦
      write_cancel (record { hdr = header_of cancel_size c; order_id = c.order_id }) rest
  | MsgType.modify ↦
      write_modify
        (record {
          hdr = header_of modify_size c;
          order_id = c.order_id;
          price = c.price;
          qty = c.qty;
        })
        rest
]

-- What `encode` returns.
abbrev pub encoded_size : Command → ℕ
encoded_size c = elim c.type [
  | MsgType.new_order ↦ new_order_size
  | MsgType.cancel ↦ cancel_size
  | MsgType.modify ↦ modify_size
]
