-- ===== src/Stream/Publisher.antt =====
-- include/exsim/seqstream.hpp: `Publisher`, the primary's end of the stream. An operation gives the
-- datagrams that it sends, in order. The clock and the outcomes of the fault injection are arguments.
pub mod Retransmission
pub mod Tests
use exchange_sim.Base.{
  ℕ, zero, suc, ◌+◌, ◌-◌, ◌*◌, ◌%◌, ◌^◌, ltb, leb, ◌==◌, if◌then◌else◌, Bool, true, false, not,
  ◌&&◌, ◌||◌, max, min, Option, none, some, List, [], ◌∷◌, ◌++◌, length, get_or, set, replicate,
}
use exchange_sim.Base.Int.{pos}
use exchange_sim.Domain.{Command, MsgType, Side, OrdType, Tif}
use exchange_sim.Stream.{Kind, Header, Datagram, k_magic, header, header_size, command_size}

abbrev pub k_per_packet : ℕ
k_per_packet = 25

pub record Stats : Type 0 where
  pub packets : ℕ
  pub dropped : ℕ
  pub heartbeats : ℕ
  pub retransmit_requests : ℕ
  pub retransmitted_packets : ℕ
  pub unavailable : ℕ
  pub acks : ℕ

-- The members but the sockets and the generator of random numbers.
pub record Publisher : Type 0 where
  pub ring : List Command
  pub epoch : ℕ
  pub fenced_by : ℕ
  pub next_seq : ℕ
  pub pending_first : ℕ
  pub acked : ℕ
  pub history_from : ℕ
  pub last_send : ℕ
  pub stats : Stats

abbrev pub bump : ℕ → ℕ
bump n = (n + 1) % 2 ^ 64

abbrev pub fenced : Publisher → Bool
fenced p = not (p.fenced_by == 0)

-- An entry of the ring that no command was written to.
abbrev pub no_command : Command
no_command = record {
  order_id = 0;
  price = pos 0;
  seq = 0;
  ts = 0;
  qty = 0;
  owner = 0;
  symbol = 0;
  type = MsgType.new_order;
  side = Side.buy;
  ord_type = OrdType.limit;
  tif = Tif.day;
  flags = 0;
}

-- The constructor, its sockets left out.
unfoldable pub new : ℕ → ℕ → ℕ → Publisher
new ring_log2 next_seq epoch = record {
  ring = replicate (2 ^ ring_log2) no_command;
  epoch = epoch;
  fenced_by = 0;
  next_seq = next_seq;
  pending_first = next_seq;
  acked = (next_seq + (2 ^ 64 - 1)) % 2 ^ 64;
  history_from = next_seq;
  last_send = 0;
  stats = record {
    packets = 0;
    dropped = 0;
    heartbeats = 0;
    retransmit_requests = 0;
    retransmitted_packets = 0;
    unavailable = 0;
    acks = 0;
  };
}

-- `ring_[s & mask_]`: the size of the ring is a power of two, so the mask takes the remainder.
abbrev pub slot : ℕ → Publisher → ℕ
slot s p = s % length p.ring

-- `none` is the exception.
unfoldable pub seed_history : Command → Publisher → Option Publisher
seed_history c p =
    if leb p.next_seq c.seq
    then none
    else some
        (record p { ring = set p.ring (slot c.seq p) c; history_from = min p.history_from c.seq })

unfoldable pub publish : Command → Publisher → Option Publisher
publish c p =
    if not (c.seq == p.next_seq)
    then none
    else some
        (record p { ring = set p.ring (slot c.seq p) c; next_seq = (p.next_seq + 1) % 2 ^ 64 })

-- The commands from `first` on, `n` of them.
unfoldable pub copy_out : ℕ → ℕ → Publisher → List Command
copy_out first zero p = []
copy_out first (suc n) p =
    get_or p.ring (slot first p) no_command ∷ copy_out ((first + 1) % 2 ^ 64) n p

unfoldable pub send_data : ℕ → ℕ → Publisher → Datagram
send_data first n p = record {
  size = header_size + n * command_size;
  hdr = header Kind.commands p.epoch first n;
  body = copy_out first n p;
}

abbrev pub send_control : Header → Datagram
send_control h = record { size = header_size; hdr = h; body = [] }

-- A round of `flush`: a datagram of at most `k_per_packet` commands, unless it is dropped.
unfoldable pub flush_round : ℕ → Bool → Publisher → Publisher × List Datagram
flush_round now drop p =
    let n = min k_per_packet (p.next_seq - p.pending_first) in
    (
      record p {
        pending_first = (p.pending_first + n) % 2 ^ 64;
        last_send = now;
        stats = record (p.stats) {
          packets = bump p.stats.packets;
          dropped = if drop then bump p.stats.dropped else p.stats.dropped;
        };
      },
      if drop then [] else send_data p.pending_first n p ∷ [],
    )

-- The loop of `flush`, by the outcome of the fault injection in each round.
unfoldable pub flush : ℕ → List Bool → Publisher → Publisher × List Datagram
flush now [] p = (p, [])
flush now (drop ∷ drops) p = elim (ltb p.pending_first p.next_seq) [
  | false ↦ (p, [])
  | true ↦ let r = flush_round now drop p in let q = flush now drops r.0 in (q.0, r.1 ++ q.1)
]

unfoldable pub heartbeat_if_idle : ℕ → ℕ → List Bool → Publisher → Publisher × List Datagram
heartbeat_if_idle now interval drops p =
    if ltb ((now + 2 ^ 64 - p.last_send) % 2 ^ 64) interval || fenced p
    then (p, [])
    else let r = flush now drops p in
      (
        record (r.0) {
          last_send = now;
          stats = record (r.0.stats) { heartbeats = bump r.0.stats.heartbeats };
        },
        r.1 ++ (send_control (header Kind.heartbeat r.0.epoch r.0.next_seq 0) ∷ []),
      )

-- `end`, which says three times that the stream is over.
unfoldable pub end_stream : ℕ → List Bool → Publisher → Publisher × List Datagram
end_stream now drops p =
    if fenced p
    then (p, [])
    else let r = flush now drops p in
      let last = send_control (header Kind.end_of_stream r.0.epoch r.0.next_seq 0) in
      (r.0, r.1 ++ (last ∷ last ∷ last ∷ []))

-- What the primary hears on its own group.
unfoldable pub hear_group : Datagram → Publisher → Publisher
hear_group d p =
    if ltb d.size header_size
    then p
    else if (d.hdr.magic == k_magic && ltb p.epoch d.hdr.epoch) && ltb p.fenced_by d.hdr.epoch
    then record p { fenced_by = d.hdr.epoch }
    else p

-- The oldest command that the ring holds.
abbrev pub oldest : Publisher → ℕ
oldest p =
    max (if ltb (length p.ring) p.next_seq then p.next_seq - length p.ring else 1) p.history_from

-- The loop of a retransmission from `s` up to `end`; the fuel is the number of commands.
unfoldable pub resend : ℕ → ℕ → ℕ → Publisher → List Datagram
resend zero s end p = []
resend (suc fuel) s end p = elim (ltb s end) [
  | false ↦ []
  | true ↦
      send_data s (min k_per_packet (end - s)) p ∷ resend fuel ((s + k_per_packet) % 2 ^ 64) end p
]

unfoldable pub on_ack : ℕ → Publisher → Publisher
on_ack through p =
    let t = record p { stats = record (p.stats) { acks = bump p.stats.acks } } in
    if ltb p.acked through && ltb through p.next_seq then record t { acked = through } else t

unfoldable pub on_retransmit : ℕ → ℕ → Publisher → Publisher × List Datagram
on_retransmit first count p =
    let t = record p {
      stats = record (p.stats) { retransmit_requests = bump p.stats.retransmit_requests };
    } in
    if ltb first (oldest p)
    then (
      record t { stats = record (t.stats) { unavailable = bump t.stats.unavailable } },
      send_control (header Kind.unavailable p.epoch (oldest p) 0) ∷ [],
    )
    else let end = min ((first + count) % 2 ^ 64) p.next_seq in
      let sent = resend (end - first) first end p in
      (
        record t {
          stats = record (t.stats) {
            retransmitted_packets = (t.stats.retransmitted_packets + length sent) % 2 ^ 64;
          };
        },
        sent,
      )

-- What the primary makes of a datagram on its control socket, and the replies.
unfoldable pub serve : Datagram → Publisher → Publisher × List Datagram
serve d p =
    if ltb d.size header_size
    then (p, [])
    else if not (d.hdr.magic == k_magic) || (not (d.hdr.epoch == p.epoch) || fenced p)
    then (p, [])
    else elim d.hdr.kind [
      | Kind.ack ↦ (on_ack d.hdr.first_seq p, [])
      | Kind.retransmit ↦ on_retransmit d.hdr.first_seq d.hdr.count p
      | _ ↦ (p, [])
    ]
