-- ===== src/Stream.antt =====
-- include/exsim/seqstream.hpp: the datagrams of the sequenced command stream.
pub mod Subscriber
pub mod Publisher
use exchange_sim.Base.{ℕ, List}
use exchange_sim.Domain.{Command}

abbrev pub k_magic : ℕ
k_magic = 0x51535845

-- `commands` is `Data`; `other` is a byte that is none of the enumerators.
pub data Kind : Type 0 where
  commands heartbeat end_of_stream retransmit ack unavailable other : Kind

pub record Header : Type 0 where
  pub magic : ℕ
  pub epoch : ℕ
  pub first_seq : ℕ
  pub count : ℕ
  pub kind : Kind

-- What `recv` gives: the size in bytes, the header, and the commands behind it.
pub record Datagram : Type 0 where
  pub size : ℕ
  pub hdr : Header
  pub body : List Command

abbrev pub header : Kind → ℕ → ℕ → ℕ → Header
header k epoch first_seq count = record {
  magic = k_magic;
  epoch = epoch;
  first_seq = first_seq;
  count = count;
  kind = k;
}

-- `sizeof(Header)` and `sizeof(Command)`.
abbrev pub header_size : ℕ
header_size = 24

abbrev pub command_size : ℕ
command_size = 56
