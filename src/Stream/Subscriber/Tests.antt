-- ===== src/Stream/Subscriber/Tests.antt =====
-- include/exsim/seqstream.hpp: a subscriber that hears datagrams out of order, and one it must ignore.
use exchange_sim.Base.{
  ℕ, ◌+◌, ◌<◌, ◌≤◌, ◌≡◌, refl, arith, List, [], ◌∷◌, map, inl, inr, false, take, drop,
}
use exchange_sim.Base.Int.{pos}
use exchange_sim.Domain.{Side, OrdType, Tif, MsgType, Command}
use exchange_sim.Stream.{Kind, Datagram, header}
use exchange_sim.Stream.Subscriber.{
  Subscriber, receive, drain, on_kind, on_data, take_commands, deliver, deliver_new, unstash,
  emplace, stash_early,
}
use exchange_sim.Stream.Subscriber.Runs.{Delivers, IsRun}
use exchange_sim.Stream.Subscriber.Delivery.{IsTrue, drain-Delivers, receive_fills}

-- The stream: the command of every number.
abbrev stream : ℕ → Command
stream n = record {
  order_id = n;
  price = pos 100;
  seq = n;
  ts = 0;
  qty = 1;
  owner = 1;
  symbol = 0;
  type = MsgType.new_order;
  side = Side.buy;
  ord_type = OrdType.limit;
  tif = Tif.day;
  flags = 0;
}

-- Two commands from `n` on, from the primary of an epoch.
abbrev two : ℕ → ℕ → Datagram
two epoch n = record {
  size = 136;
  hdr = header Kind.commands epoch n 2;
  body = stream n ∷ stream (n + 1) ∷ [];
}

abbrev follower : Subscriber
follower = record {
  min_epoch = 1;
  epoch = 4;
  superseded_by = 0;
  expected = 1;
  known_next = 0;
  end_seq = 0;
  requested_from = 0;
  requested_at = 0;
  last_heard = 0;
  ended = false;
  unavailable = false;
  stash = [];
  stats = record {
    packets = 0;
    duplicates = 0;
    gaps = 0;
    requests = 0;
    stashed_max = 0;
    stale = 0;
  };
}

two-IsRun : (n : ℕ) → n < 100 → IsRun stream n (take 2 (stream n ∷ stream (n + 1) ∷ []))
unfolding take
two-IsRun n h = ((refl, (refl, tt)), omega arith)

two-IsTrue : (n : ℕ) → n < 100 → IsTrue stream 4 (two 4 n)
unfolding take
two-IsTrue n h = inr (inr (inr (refl, two-IsRun n h)))

-- The second datagram comes first; a primary of an older epoch interferes.
abbrev heard : List (ℕ × Datagram)
heard = (10, two 4 3) ∷ (11, two 3 1) ∷ (12, two 4 1) ∷ (13, two 4 3) ∷ []

drain-Delivers_example : Delivers stream follower (drain heard follower)
drain-Delivers_example =
    drain-Delivers stream heard follower (omega arith)
      (
        two-IsTrue 3 (omega arith),
        (inl (omega arith), (two-IsTrue 1 (omega arith), (two-IsTrue 3 (omega arith), tt))),
      )
      tt

drain_run : map Command.seq (drain heard follower).1 ≡ 1 ∷ 2 ∷ 3 ∷ 4 ∷ []
unfolding drain receive on_kind on_data take_commands deliver deliver_new unstash emplace
    stash_early take drop
drain_run = refl

receive_fills_example : 1 + 2 ≤ (receive 12 (two 4 1) follower).0.expected
unfolding take
receive_fills_example =
    receive_fills stream 12 (two 4 1) follower (omega arith) (omega arith) tt refl refl refl refl
      (refl, two-IsRun 1 (omega arith)) (omega arith) (omega arith)

abbrev waiting : Subscriber
waiting = (receive 10 (two 4 3) follower).0
