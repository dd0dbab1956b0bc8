-- ===== src/Journal/Tests.antt =====
-- include/exsim/journal.hpp: a journal of two commands.
use exchange_sim.Base.{
  ℕ, ◌^◌, ◌<◌, ◌≡◌, refl, some, [], ◌∷◌, ◌++◌, List, length, take, drop, get_or, map, arith, All,
}
use exchange_sim.Base.Int.{negsuc}
use exchange_sim.Domain.{Side, OrdType, Tif, MsgType, Command}
use exchange_sim.Wire.Bytes.{to_le, to_price}
use exchange_sim.Wire.{encode, write_header, write_new_order, write_cancel, write_modify}
use exchange_sim.Journal.Records.{IsRecordable, journaled}
use exchange_sim.Journal.Scan.{journal_of, append_each, journal_scan-append_each}
use exchange_sim.Journal.Recovery.{recover-torn}
use exchange_sim.Journal.{
  JournalStatus, Round, ScanResult, crc_of, crc_loop, table_entry, create, append,
  write_journal_header, write_record, write_meta, read_record, journal_scan, recover,
}

-- The check value of CRC-32C, of the digits from 1 to 9.
crc_check : crc_of (49 ∷ 50 ∷ 51 ∷ 52 ∷ 53 ∷ 54 ∷ 55 ∷ 56 ∷ 57 ∷ []) ≡ 0xE3069283
unfolding crc_of crc_loop table_entry
crc_check = refl

abbrev message : MsgType → ℕ → Command
message type id = record {
  order_id = id;
  price = negsuc 4;
  seq = 1;
  ts = 99;
  qty = 7;
  owner = 2;
  symbol = 1;
  type = type;
  side = Side.sell;
  ord_type = OrdType.limit;
  tif = Tif.fok;
  flags = 5;
}

message-IsRecordable : (type : MsgType) (id : ℕ) → id < 100 → IsRecordable (message type id)
message-IsRecordable type id h = record {
  wide = record {
    order_id = omega arith;
    price = omega arith;
    seq = omega arith;
    qty = omega arith;
    owner = omega arith;
    symbol = omega arith;
    flags = omega arith;
  };
  ts = omega arith;
  owner = omega arith;
}

abbrev two_messages : List Command
two_messages = message MsgType.new_order 8 ∷ message MsgType.cancel 8 ∷ []

two_messages-AreRecordable : All IsRecordable two_messages
two_messages-AreRecordable = (
  message-IsRecordable MsgType.new_order 8 (omega arith),
  (message-IsRecordable MsgType.cancel 8 (omega arith), tt),
)

two_messages_length : length (journal_of two_messages) < 2 ^ 64
unfolding append_each create append write_journal_header write_record write_meta to_le to_price
    encode write_header write_new_order write_cancel write_modify
two_messages_length = omega arith

no_tail : read_record [] ≡ Round.stop JournalStatus.clean
unfolding read_record
no_tail = refl

journal_scan-append_each_example :
    journal_scan (journal_of two_messages ++ [])
    ≡ some (
        ScanResult.scanned (map journaled two_messages) (record {
          records = length two_messages;
          valid_bytes = length (journal_of two_messages);
          status = JournalStatus.clean;
        }))
journal_scan-append_each_example =
    journal_scan-append_each two_messages [] JournalStatus.clean two_messages-AreRecordable
      two_messages_length no_tail

-- A record of a modify, and its first 30 bytes.
abbrev third : List ℕ
third = write_record (message MsgType.modify 8) []

abbrev torn : List ℕ
torn = take 30 third

torn_length : 0 < length torn
unfolding write_record write_meta to_le take
torn_length = omega arith

torn_rest : torn ++ get_or third 30 0 ∷ drop 31 third ≡ third
unfolding write_record write_meta to_le to_price encode write_header write_modify take drop
torn_rest = refl

recover-torn_example :
    recover (journal_of two_messages ++ torn)
    ≡ some (record { file = journal_of two_messages; records = 0 })
recover-torn_example =
    recover-torn two_messages (message MsgType.modify 8) torn (get_or third 30 0) (drop 31 third)
      two_messages-AreRecordable (message-IsRecordable MsgType.modify 8 (omega arith))
      two_messages_length torn_length torn_rest
