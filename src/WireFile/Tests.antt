-- ===== src/WireFile/Tests.antt =====
-- include/exsim/wire_file.hpp: a capture of two messages.
use exchange_sim.Base.{ℕ, ◌<◌, ◌≡◌, ◌≢◌, arith, [], ◌∷◌, length, some, none, false, map, List}
use exchange_sim.Base.Int.{negsuc}
use exchange_sim.Domain.{Side, OrdType, Tif, MsgType, Command}
use exchange_sim.Wire.RoundTrip.{IsWide, carried}
use exchange_sim.WireFile.Stream.{decode_stream_ends, decode_stream-encode_stream}
use exchange_sim.WireFile.{encode_stream, decode_stream}

abbrev message : MsgType → ℕ → Command
message type id = record {
  order_id = id;
  price = negsuc 4;
  seq = 1;
  ts = 99;
  qty = 7;
  owner = 2;
  symbol = 1;
  type = type;
  side = Side.sell;
  ord_type = OrdType.limit;
  tif = Tif.fok;
  flags = 5;
}

message-IsWide : (type : MsgType) (id : ℕ) → id < 100 → IsWide (message type id)
message-IsWide type id h = record {
  order_id = omega arith;
  price = omega arith;
  seq = omega arith;
  qty = omega arith;
  owner = omega arith;
  symbol = omega arith;
  flags = omega arith;
}

abbrev two_messages : List Command
two_messages = message MsgType.new_order 8 ∷ message MsgType.cancel 8 ∷ []

decode_stream-encode_stream_example :
    decode_stream (encode_stream two_messages)
    ≡ some (
      map carried two_messages,
      record { ok = length two_messages; malformed = 0; truncated = false },
    )
decode_stream-encode_stream_example =
    decode_stream-encode_stream two_messages
      (
        message-IsWide MsgType.new_order 8 (omega arith),
        (message-IsWide MsgType.cancel 8 (omega arith), tt),
      )
      (omega arith)

decode_stream_ends_example : decode_stream (7 ∷ 7 ∷ []) ≢ none
decode_stream_ends_example = decode_stream_ends (7 ∷ 7 ∷ [])
