-- ===== src/Wire/Tests.antt =====
-- include/exsim/protocol.hpp: the bytes of a few messages.
use exchange_sim.Base.{◌≡◌, refl, some, none, length, arith, [], ◌∷◌}
use exchange_sim.Base.Int.{negsuc}
use exchange_sim.Domain.{Side, OrdType, Tif, MsgType, Command, Event, EventType, Reason}
use exchange_sim.Wire.Bytes.{to_le}
use exchange_sim.Wire.RoundTrip.{IsWide, carried, decode-encode}
use exchange_sim.Wire.Framing.{decode_cut}
use exchange_sim.Wire.Reports.{encode_report, encode_done, read_report, report_to_event}
use exchange_sim.Wire.Reports.RoundTrip.{IsWideEvent, report_to_event-encode_report}
use exchange_sim.Wire.{
  decode, encode, encoded_size, good, incomplete_result, write_cancel, write_header,
}

abbrev order : Command
order = record {
  order_id = 300;
  price = negsuc 4;
  seq = 1;
  ts = 99;
  qty = 7;
  owner = 2;
  symbol = 1;
  type = MsgType.new_order;
  side = Side.sell;
  ord_type = OrdType.limit;
  tif = Tif.fok;
  flags = 5;
}

order-IsWide : IsWide order
order-IsWide = record {
  order_id = omega arith;
  price = omega arith;
  seq = omega arith;
  qty = omega arith;
  owner = omega arith;
  symbol = omega arith;
  flags = omega arith;
}

decode-encode_example :
    decode (encode order (1 ∷ 2 ∷ [])) ≡ good (encoded_size order) (carried order)
decode-encode_example = decode-encode order (1 ∷ 2 ∷ []) order-IsWide

abbrev cancel : Command
cancel = record order { type = MsgType.cancel }

decode_cut_example :
    decode (24 ∷ 0 ∷ 2 ∷ 1 ∷ 1 ∷ 0 ∷ 0 ∷ 0 ∷ 1 ∷ 0 ∷ 0 ∷ 0 ∷ 0 ∷ 0 ∷ 0 ∷ 0 ∷ 44 ∷ 1 ∷ [])
    ≡ incomplete_result
unfolding encode write_cancel write_header to_le
decode_cut_example =
    decode_cut cancel (24 ∷ 0 ∷ 2 ∷ 1 ∷ 1 ∷ 0 ∷ 0 ∷ 0 ∷ 1 ∷ 0 ∷ 0 ∷ 0 ∷ 0 ∷ 0 ∷ 0 ∷ 0 ∷ 44 ∷ 1 ∷ [])
      0 (0 ∷ 0 ∷ 0 ∷ 0 ∷ 0 ∷ []) refl

abbrev trade : Event
trade = record {
  order_id = 300;
  maker_id = 4;
  price = negsuc 4;
  qty = 7;
  leaves = 2;
  symbol = 1;
  type = EventType.trade;
  reason = Reason.none;
  side = Side.sell;
  request = none;
}

trade-IsWide : IsWideEvent trade
trade-IsWide = record {
  order_id = omega arith;
  maker_id = omega arith;
  price = omega arith;
  qty = omega arith;
  leaves = omega arith;
  symbol = omega arith;
}

report_to_event-encode_report_example :
    ((length (encode_report trade 5) ≡ 64)
      × (report_to_event (read_report (encode_report trade 5)) ≡ some trade))
    × ((length (encode_done 1 5) ≡ 64) × (report_to_event (read_report (encode_done 1 5)) ≡ none))
report_to_event-encode_report_example =
    report_to_event-encode_report trade 5 trade-IsWide (omega arith)
