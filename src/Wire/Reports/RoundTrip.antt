-- ===== src/Wire/Reports/RoundTrip.antt =====
-- include/exsim/protocol.hpp: what a client reads from an execution report.
use exchange_sim.Base.{
  ℕ, ◌+◌, ◌<◌, ◌≡◌, refl, ◌==◌, false, ap, ◌∙◌, Option, none, some, List, [], length, arith,
}
use exchange_sim.Domain.{Event, EventType, Reason, MsgType, Side}
use exchange_sim.Wire.Bytes.{
  values, IsPrice, read_le-to_le, read_price-to_price, length-to_le, length-to_price,
}
use exchange_sim.Wire.{side_code, to_side}
use exchange_sim.Wire.RoundTrip.{
  IsWideHeader, read_header-write_header, length-write_header, side_lem,
}
use exchange_sim.Wire.Reports.{
  ExecReport, event_type_code, to_event_type, reason_code, to_reason, request_code, to_request,
  write_report, read_report, report_header, report_of, encode_report, done_report, encode_done,
  report_to_event,
}

-- The fields are as wide as in the source.
pub record IsWideReport (r : ExecReport) : Type 0 where
  pub hdr : IsWideHeader r.hdr
  pub order_id : r.order_id < values 8
  pub maker_id : r.maker_id < values 8
  pub price : IsPrice r.price
  pub qty : r.qty < values 8
  pub leaves : r.leaves < values 8
  pub event_type : r.event_type < values 1
  pub reason : r.reason < values 1
  pub side : r.side < values 1
  pub request : r.request < values 1
  pub reserved : r.reserved < values 4

read_report-write_report :
    (r : ExecReport) (rest : List ℕ) → IsWideReport r → read_report (write_report r rest) ≡ r
unfolding read_report write_report
read_report-write_report r rest w =
    rw
      (
        read_header-write_header r.hdr _ w.hdr,
        read_le-to_le 8 r.order_id _ w.order_id,
        read_le-to_le 8 r.maker_id _ w.maker_id,
        read_price-to_price r.price _ w.price,
        read_le-to_le 8 r.qty _ w.qty,
        read_le-to_le 8 r.leaves _ w.leaves,
        read_le-to_le 1 r.event_type _ w.event_type,
        read_le-to_le 1 r.reason _ w.reason,
        read_le-to_le 1 r.side _ w.side,
        read_le-to_le 1 r.request _ w.request,
        read_le-to_le 4 r.reserved _ w.reserved,
      )
      refl

length-write_report :
    (r : ExecReport) (rest : List ℕ) → length (write_report r rest) ≡ 64 + length rest
unfolding write_report
length-write_report r rest =
    rw
      (
        length-write_header r.hdr _,
        length-to_le 8 r.order_id _,
        length-to_le 8 r.maker_id _,
        length-to_price r.price _,
        length-to_le 8 r.qty _,
        length-to_le 8 r.leaves _,
        length-to_le 1 r.event_type _,
        length-to_le 1 r.reason _,
        length-to_le 1 r.side _,
        length-to_le 1 r.request _,
        length-to_le 4 r.reserved _,
      )
      (omega arith)

event_type_lem : (t : EventType) → (event_type_code t < 6) × (to_event_type (event_type_code t) ≡ t)
event_type_lem t = ground arith

reason_lem : (t : Reason) → (reason_code t < 19) × (to_reason (reason_code t) ≡ t)
reason_lem t = ground arith

request_lem : (t : Option MsgType) → (request_code t < 4) × (to_request (request_code t) ≡ t)
request_lem t = ground arith

-- The fields are as wide as in the source.
pub record IsWideEvent (e : Event) : Type 0 where
  pub order_id : e.order_id < values 8
  pub maker_id : e.maker_id < values 8
  pub price : IsPrice e.price
  pub qty : e.qty < values 8
  pub leaves : e.leaves < values 8
  pub symbol : e.symbol < values 4

report_header-IsWide :
    (symbol seq : ℕ) → symbol < values 4 → seq < values 8 → IsWideHeader (report_header symbol seq)
unfolding report_header
report_header-IsWide symbol seq h h' = record {
  length = omega arith;
  type = omega arith;
  version = omega arith;
  symbol = h;
  seq = h';
}

report_of-IsWide :
    (e : Event) (seq : ℕ) → IsWideEvent e → seq < values 8 → IsWideReport (report_of e seq)
unfolding report_of
report_of-IsWide e seq w h = record {
  hdr = report_header-IsWide e.symbol seq w.symbol h;
  order_id = w.order_id;
  maker_id = w.maker_id;
  price = w.price;
  qty = w.qty;
  leaves = w.leaves;
  event_type = omega (arith, (event_type_lem e.type).0);
  reason = omega (arith, (reason_lem e.reason).0);
  side = omega (arith, (side_lem e.side).0);
  request = omega (arith, (request_lem e.request).0);
  reserved = omega arith;
}

abbrev with_codes : Event → EventType → Reason → Side → Option MsgType → Event
with_codes e t r d q = record e { type = t; reason = r; side = d; request = q }

report_to_event_lem : (e : Event) (seq : ℕ) → report_to_event (report_of e seq) ≡ some e
unfolding report_to_event report_of report_header
report_to_event_lem e seq =
    let d : (event_type_code e.type == 255) ≡ false = ground (arith, (event_type_lem e.type).0) in
    rw (d) (
      ap
        (λ (t : EventType). some (
          with_codes e t (to_reason (reason_code e.reason)) (to_side (side_code e.side))
            (to_request (request_code e.request))))
        (event_type_lem e.type).1
      ∙ ap
          (λ (r : Reason). some (
            with_codes e e.type r (to_side (side_code e.side))
              (to_request (request_code e.request))))
          (reason_lem e.reason).1
      ∙ ap
          (λ (d : Side).
            some (with_codes e e.type e.reason d (to_request (request_code e.request))))
          (side_lem e.side).1
      ∙ ap (λ (q : Option MsgType). some (with_codes e e.type e.reason e.side q))
          (request_lem e.request).1)

done_lem : (symbol seq : ℕ) → report_to_event (done_report symbol seq) ≡ none
unfolding report_to_event done_report
done_lem symbol seq = refl

done_report-IsWide :
    (symbol seq : ℕ) → symbol < values 4 → seq < values 8 → IsWideReport (done_report symbol seq)
unfolding done_report
done_report-IsWide symbol seq h h' = record {
  hdr = report_header-IsWide symbol seq h h';
  order_id = omega arith;
  maker_id = omega arith;
  price = omega arith;
  qty = omega arith;
  leaves = omega arith;
  event_type = omega arith;
  reason = omega arith;
  side = omega arith;
  request = omega arith;
  reserved = omega arith;
}

-- For an event whose fields are as wide as in the source and a client sequence number of 64 bits, the
-- report has 64 bytes, and the client rebuilds the event from it; from the marker that a command is
-- finished, of 64 bytes too, it rebuilds none.
pub report_to_event-encode_report :
    (e : Event) (seq : ℕ)
    → IsWideEvent e
    → seq < values 8
    → ((length (encode_report e seq) ≡ 64)
        × (report_to_event (read_report (encode_report e seq)) ≡ some e))
      × ((length (encode_done e.symbol seq) ≡ 64)
          × (report_to_event (read_report (encode_done e.symbol seq)) ≡ none))
unfolding encode_report encode_done
report_to_event-encode_report e seq w h = (
  (
    length-write_report (report_of e seq) [],
    ap report_to_event (read_report-write_report (report_of e seq) [] (report_of-IsWide e seq w h))
        ∙ report_to_event_lem e seq,
  ),
  (
    length-write_report (done_report e.symbol seq) [],
    ap report_to_event (
          read_report-write_report (done_report e.symbol seq) []
            (done_report-IsWide e.symbol seq w.symbol h))
        ∙ done_lem e.symbol seq,
  ),
)
