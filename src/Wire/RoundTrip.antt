-- ===== src/Wire/RoundTrip.antt =====
-- include/exsim/protocol.hpp: `decode` of what `encode` writes.
use exchange_sim.Base.{ℕ, ◌+◌, ◌<◌, ◌≤◌, ◌≡◌, refl, List, length, arith}
use exchange_sim.Base.Int.{pos}
use exchange_sim.Domain.{MsgType, Command, Side, OrdType, Tif}
use exchange_sim.Wire.Bytes.{
  to_le, to_price, values, IsPrice, read_le-to_le, read_price-to_price, length-to_le,
  length-to_price,
}
use exchange_sim.Wire.{
  Header, NewOrder, read_header, write_header, read_new_order, write_new_order, read_cancel,
  write_cancel, read_modify, write_modify, decode_new_order, decode_cancel, decode_modify,
  decode_body, decode_framed, decode, encode, encoded_size, header_of, new_order_of, good,
  type_code, side_code, to_side, ord_type_code, to_ord_type, tif_code, to_tif,
}

-- The fields are as wide as in the source.
pub record IsWide (c : Command) : Type 0 where
  pub order_id : c.order_id < values 8
  pub price : IsPrice c.price
  pub seq : c.seq < values 8
  pub qty : c.qty < values 8
  pub owner : c.owner < values 4
  pub symbol : c.symbol < values 4
  pub flags : c.flags < values 1

pub record IsWideHeader (h : Header) : Type 0 where
  pub length : h.length < values 2
  pub type : h.type < values 1
  pub version : h.version < values 1
  pub symbol : h.symbol < values 4
  pub seq : h.seq < values 8

pub read_header-write_header :
    (h : Header) (rest : List ℕ) → IsWideHeader h → read_header (write_header h rest) ≡ (h, rest)
unfolding read_header write_header
read_header-write_header h rest w =
    rw
      (
        read_le-to_le 2 h.length _ w.length,
        read_le-to_le 1 h.type _ w.type,
        read_le-to_le 1 h.version _ w.version,
        read_le-to_le 4 h.symbol _ w.symbol,
        read_le-to_le 8 h.seq _ w.seq,
      )
      refl

pub length-write_header :
    (h : Header) (rest : List ℕ) → length (write_header h rest) ≡ 16 + length rest
unfolding write_header
length-write_header h rest =
    rw
      (
        length-to_le 2 h.length _,
        length-to_le 1 h.type _,
        length-to_le 1 h.version _,
        length-to_le 4 h.symbol _,
        length-to_le 8 h.seq _,
      )
      (omega arith)

-- What a message carries of a command: not its time, and of a cancel or modify only what it needs.
pub carried : Command → Command
carried c = elim c.type [
  | MsgType.new_order ↦ record c { ts = 0 }
  | MsgType.cancel ↦ record {
    order_id = c.order_id;
    price = pos 0;
    seq = c.seq;
    ts = 0;
    qty = 0;
    owner = 0;
    symbol = c.symbol;
    type = c.type;
    side = Side.buy;
    ord_type = OrdType.limit;
    tif = Tif.day;
    flags = 0;
  }
  | MsgType.modify ↦ record {
    order_id = c.order_id;
    price = c.price;
    seq = c.seq;
    ts = 0;
    qty = c.qty;
    owner = 0;
    symbol = c.symbol;
    type = c.type;
    side = Side.buy;
    ord_type = OrdType.limit;
    tif = Tif.day;
    flags = 0;
  }
]

-- A message that starts with a header of its own length is decoded by its type.
decode-write_header :
    (h : Header) (body : List ℕ)
    → IsWideHeader h
    → h.version ≡ 1
    → 16 ≤ h.length
    → h.length ≤ 16 + length body
    → decode (write_header h body) ≡ decode_body h body
unfolding decode decode_framed
decode-write_header h body w v a b =
    rw (length-write_header h body, read_header-write_header h body w) (ground arith)

type_code-IsWide : (t : MsgType) → type_code t < values 1
type_code-IsWide t = ground arith

header_of-IsWide :
    (n : ℕ) (c : Command) (t : MsgType)
    → n < values 2
    → IsWide c
    → IsWideHeader (header_of n (record c { type = t }))
header_of-IsWide n c t h w = record {
  length = h;
  type = type_code-IsWide t;
  version = omega arith;
  symbol = w.symbol;
  seq = w.seq;
}

pub side_lem : (s : Side) → (side_code s < 2) × (to_side (side_code s) ≡ s)
side_lem s = ground arith

ord_type_lem : (o : OrdType) → (ord_type_code o < 2) × (to_ord_type (ord_type_code o) ≡ o)
ord_type_lem o = ground arith

tif_lem : (t : Tif) → (tif_code t < 3) × (to_tif (tif_code t) ≡ t)
tif_lem t = ground arith

abbrev pub new_order_body : NewOrder → List ℕ → List ℕ
new_order_body m rest = to_le 8 m.order_id (
    to_price m.price (
      to_le 8 m.qty (
        to_le 4 m.owner
          (to_le 1 m.side (to_le 1 m.ord_type (to_le 1 m.tif (to_le 1 m.flags rest)))))))

pub length-new_order_body :
    (m : NewOrder) (rest : List ℕ) → length (new_order_body m rest) ≡ 32 + length rest
length-new_order_body m rest =
    rw
      (
        length-to_le 8 m.order_id _,
        length-to_price m.price _,
        length-to_le 8 m.qty _,
        length-to_le 4 m.owner _,
        length-to_le 1 m.side _,
        length-to_le 1 m.ord_type _,
        length-to_le 1 m.tif _,
        length-to_le 1 m.flags _,
      )
      (omega arith)

read_new_order-write :
    (m : NewOrder) (rest : List ℕ)
    → m.order_id < values 8
    → IsPrice m.price
    → m.qty < values 8
    → m.owner < values 4
    → m.side < values 1
    → m.ord_type < values 1
    → m.tif < values 1
    → m.flags < values 1
    → read_new_order m.hdr (new_order_body m rest) ≡ m
unfolding read_new_order
read_new_order-write m rest a b c d e f g h =
    rw
      (
        read_le-to_le 8 m.order_id _ a,
        read_price-to_price m.price _ b,
        read_le-to_le 8 m.qty _ c,
        read_le-to_le 4 m.owner _ d,
        read_le-to_le 1 m.side _ e,
        read_le-to_le 1 m.ord_type _ f,
        read_le-to_le 1 m.tif _ g,
        read_le-to_le 1 m.flags _ h,
      )
      refl

abbrev Trips : List ℕ → Command → Type 0
Trips rest c = decode (encode c rest) ≡ good (encoded_size c) (carried c)

module _ (c : Command) (rest : List ℕ) (w : IsWide c) where
  new_order_trip : Trips rest (record c { type = MsgType.new_order })
  unfolding encode write_new_order decode_body decode_new_order carried
  new_order_trip =
      let k : Command = record c { type = MsgType.new_order } in
      let m = new_order_of k in
      let (sb, se) = side_lem c.side in
      let (ob, oe) = ord_type_lem c.ord_type in
      let (tb, te) = tif_lem c.tif in
      rw
        (
          decode-write_header (header_of 48 k) (new_order_body m rest)
              (header_of-IsWide 48 c MsgType.new_order (omega arith) w) refl (omega arith)
              (omega (arith, length-new_order_body m rest)),
          read_new_order-write m rest w.order_id w.price w.qty w.owner (omega arith) (omega arith)
              (omega arith) w.flags,
        )
        (ground arith)

  cancel_trip : Trips rest (record c { type = MsgType.cancel })
  unfolding encode write_cancel decode_body decode_cancel read_cancel carried
  cancel_trip =
      let k : Command = record c { type = MsgType.cancel } in
      rw
        (
          decode-write_header (header_of 24 k) (to_le 8 c.order_id rest)
              (header_of-IsWide 24 c MsgType.cancel (omega arith) w) refl (omega arith)
              (omega (arith, length-to_le 8 c.order_id rest)),
          read_le-to_le 8 c.order_id rest w.order_id,
        )
        refl

  modify_trip : Trips rest (record c { type = MsgType.modify })
  unfolding encode write_modify decode_body decode_modify read_modify carried
  modify_trip =
      let k : Command = record c { type = MsgType.modify } in
      let body = to_le 8 c.order_id (to_price c.price (to_le 8 c.qty rest)) in
      rw
        (
          decode-write_header (header_of 40 k) body
              (header_of-IsWide 40 c MsgType.modify (omega arith) w) refl (omega arith)
              (omega (
                arith,
                length-to_le 8 c.order_id (to_price c.price (to_le 8 c.qty rest)),
                length-to_price c.price (to_le 8 c.qty rest),
                length-to_le 8 c.qty rest,
              )),
          read_le-to_le 8 c.order_id (to_price c.price (to_le 8 c.qty rest)) w.order_id,
          read_price-to_price c.price (to_le 8 c.qty rest) w.price,
          read_le-to_le 8 c.qty rest w.qty,
        )
        refl

  by_type : (t : MsgType) → Trips rest (record c { type = t })
  by_type MsgType.new_order = new_order_trip
  by_type MsgType.cancel = cancel_trip
  by_type MsgType.modify = modify_trip

-- Decoding the bytes of an encoded command, whatever follows them, succeeds, consumes just the
-- message, and gives back what the message carries of the command: the fields of the command are as
-- wide as in the source.
pub decode-encode :
    (c : Command) (rest : List ℕ)
    → IsWide c
    → decode (encode c rest) ≡ good (encoded_size c) (carried c)
decode-encode c rest w = by_type c rest w c.type
