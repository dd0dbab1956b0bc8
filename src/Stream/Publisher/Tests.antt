-- ===== src/Stream/Publisher/Tests.antt =====
-- include/exsim/seqstream.hpp: a primary that has published one command.
use exchange_sim.Base.{ℕ, ◌≡◌, refl, subst, get_or, arith, [], ◌∷◌, some, true, All}
use exchange_sim.Base.Int.{pos}
use exchange_sim.Domain.{Side, OrdType, Tif, MsgType, Command}
use exchange_sim.Stream.{Kind, Datagram, header}
use exchange_sim.Stream.Subscriber.Delivery.{IsTrue}
use exchange_sim.Stream.Publisher.{
  Publisher, new, no_command, slot, publish, serve, flush, send_control,
}
use exchange_sim.Stream.Publisher.Retransmission.{
  HoldsStream, new-HoldsStream, serve-AreTrue, flush_ends,
}

abbrev stream : ℕ → Command
stream n = record {
  order_id = n;
  price = pos 100;
  seq = n;
  ts = 0;
  qty = 1;
  owner = 1;
  symbol = 0;
  type = MsgType.new_order;
  side = Side.buy;
  ord_type = OrdType.limit;
  tif = Tif.day;
  flags = 0;
}

abbrev start : Publisher
start = new 2 1 4

start-HoldsStream : HoldsStream stream start
start-HoldsStream = new-HoldsStream stream 2 1 4 (omega arith) (omega arith)

-- The primary once it has published the first command.
abbrev primary : Publisher
primary = record {
  ring = no_command ∷ stream 1 ∷ no_command ∷ no_command ∷ [];
  epoch = 4;
  fenced_by = 0;
  next_seq = 2;
  pending_first = 1;
  acked = 0;
  history_from = 1;
  last_send = 0;
  stats = start.stats;
}

start-publish : publish (stream 1) start ≡ some primary
unfolding new publish
start-publish = refl

primary-HoldsStream : HoldsStream stream primary
primary-HoldsStream = record {
  held = λ s a b.
      let e : 1 ≡ s = ground arith in
      subst (λ (k : ℕ). get_or primary.ring (slot k primary) no_command ≡ stream k) e refl;
  sized = omega arith;
  small = omega arith;
}

abbrev request : Datagram
request = send_control (header Kind.retransmit 4 1 1)

serve-AreTrue_example : All (IsTrue stream primary.epoch) (serve request primary).1
serve-AreTrue_example = serve-AreTrue stream request primary primary-HoldsStream

flush_ends_example :
    ((flush 5 (true ∷ []) primary).0.pending_first ≡ primary.next_seq)
    × ((flush 5 (true ∷ []) primary).0.next_seq ≡ primary.next_seq)
flush_ends_example = flush_ends 5 (true ∷ []) primary (omega arith) (omega arith) (omega arith)
