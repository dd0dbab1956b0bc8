-- ===== src/Wire/Messages.antt =====
-- include/exsim/protocol.hpp: the packed structs of the messages, and their bytes. A struct is read
-- and written field by field, in the order of its fields.
use exchange_sim.Base.{ℕ, ◌==◌, if◌then◌else◌, List}
use exchange_sim.Base.Int.{ℤ}
use exchange_sim.Domain.{Side, OrdType, Tif, MsgType}
use exchange_sim.Wire.Bytes.{read_le, to_le, read_price, to_price}

abbrev pub version : ℕ
version = 1

pub record Header : Type 0 where
  pub length : ℕ
  pub type : ℕ
  pub version : ℕ
  pub symbol : ℕ
  pub seq : ℕ

pub record NewOrder : Type 0 where
  pub hdr : Header
  pub order_id : ℕ
  pub price : ℤ
  pub qty : ℕ
  pub owner : ℕ
  pub side : ℕ
  pub ord_type : ℕ
  pub tif : ℕ
  pub flags : ℕ

pub record Cancel : Type 0 where
  pub hdr : Header
  pub order_id : ℕ

pub record Modify : Type 0 where
  pub hdr : Header
  pub order_id : ℕ
  pub price : ℤ
  pub qty : ℕ

-- The sizes of the structs.
abbrev pub header_size : ℕ
header_size = 16

abbrev pub new_order_size : ℕ
new_order_size = 48

abbrev pub cancel_size : ℕ
cancel_size = 24

abbrev pub modify_size : ℕ
modify_size = 40

-- The numbers of the enumerators, and the casts back within range.
abbrev pub type_code : MsgType → ℕ
type_code MsgType.new_order = 1
type_code MsgType.cancel = 2
type_code MsgType.modify = 3

abbrev pub side_code : Side → ℕ
side_code Side.buy = 0
side_code Side.sell = 1

abbrev pub to_side : ℕ → Side
to_side v = if v == 0 then Side.buy else Side.sell

abbrev pub ord_type_code : OrdType → ℕ
ord_type_code OrdType.limit = 0
ord_type_code OrdType.market = 1

abbrev pub to_ord_type : ℕ → OrdType
to_ord_type v = if v == 0 then OrdType.limit else OrdType.market

abbrev pub tif_code : Tif → ℕ
tif_code Tif.day = 0
tif_code Tif.ioc = 1
tif_code Tif.fok = 2

abbrev pub to_tif : ℕ → Tif
to_tif v = if v == 0 then Tif.day else if v == 1 then Tif.ioc else Tif.fok

-- `memcpy` of the structs, in both directions. A read gives the bytes behind it too.
unfoldable pub read_header : List ℕ → Header × List ℕ
read_header p =
    let a = read_le 2 p in
    let b = read_le 1 a.1 in
    let c = read_le 1 b.1 in
    let d = read_le 4 c.1 in
    let e = read_le 8 d.1 in
    (record { length = a.0; type = b.0; version = c.0; symbol = d.0; seq = e.0 }, e.1)

unfoldable pub write_header : Header → List ℕ → List ℕ
write_header h rest =
    to_le 2 h.length (to_le 1 h.type (to_le 1 h.version (to_le 4 h.symbol (to_le 8 h.seq rest))))

unfoldable pub read_new_order : Header → List ℕ → NewOrder
read_new_order h p =
    let a = read_le 8 p in
    let b = read_price a.1 in
    let c = read_le 8 b.1 in
    let d = read_le 4 c.1 in
    let e = read_le 1 d.1 in
    let f = read_le 1 e.1 in
    let g = read_le 1 f.1 in
    let i = read_le 1 g.1 in
    record {
      hdr = h;
      order_id = a.0;
      price = b.0;
      qty = c.0;
      owner = d.0;
      side = e.0;
      ord_type = f.0;
      tif = g.0;
      flags = i.0;
    }

unfoldable pub write_new_order : NewOrder → List ℕ → List ℕ
write_new_order m rest = write_header m.hdr (
    to_le 8 m.order_id (
      to_price m.price (
        to_le 8 m.qty (
          to_le 4 m.owner
            (to_le 1 m.side (to_le 1 m.ord_type (to_le 1 m.tif (to_le 1 m.flags rest))))))))

unfoldable pub read_cancel : Header → List ℕ → Cancel
read_cancel h p = record { hdr = h; order_id = (read_le 8 p).0 }

unfoldable pub write_cancel : Cancel → List ℕ → List ℕ
write_cancel m rest = write_header m.hdr (to_le 8 m.order_id rest)

unfoldable pub read_modify : Header → List ℕ → Modify
read_modify h p =
    let a = read_le 8 p in
    let b = read_price a.1 in
    record { hdr = h; order_id = a.0; price = b.0; qty = (read_le 8 b.1).0 }

unfoldable pub write_modify : Modify → List ℕ → List ℕ
write_modify m rest =
    write_header m.hdr (to_le 8 m.order_id (to_price m.price (to_le 8 m.qty rest)))
