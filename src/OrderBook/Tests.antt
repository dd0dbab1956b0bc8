-- ===== src/OrderBook/Tests.antt =====
-- include/exsim/order_book.hpp: runs of a small book.
use exchange_sim.Base.{
  ℕ, replicate, ◌++◌, ◌≡◌, refl, true, false, none, some, Option, Bool, List, [], ◌∷◌, ap, ◌∙◌,
  arith, get_or, drop,
}
use exchange_sim.Base.Int.{pos, negsuc, ◌+ℤ◌, ◌-ℤ◌}
use exchange_sim.Domain.{Side, OrdType, Tif, MsgType, Stp, Command, BookConfig, Event, Sink}
use exchange_sim.OrderStore
use exchange_sim.OrderStore.Records
use exchange_sim.OrderIndex
use exchange_sim.PriceBitmap
use exchange_sim.PriceBitmap.Words
use exchange_sim.OrderBook.Sweep
use exchange_sim.OrderBook.Commands
use exchange_sim.OrderBook.Queries
use exchange_sim.OrderBook
use exchange_sim.OrderBook.{Book, new, level, no_level, append_slot, unlink_links}
use exchange_sim.OrderBook.Queries.{queue_from}
use exchange_sim.OrderBook.Queues.{IsQueue}
use exchange_sim.OrderBook.Queues.Append.{append_slot-IsQueue}
use exchange_sim.OrderBook.Queues.Unlink.{unlink_links-IsQueue}
use exchange_sim.PriceBitmap.Words.{no_bits}
use exchange_sim.Domain
use exchange_sim.Reference.Sides
use exchange_sim.Reference.Match
use exchange_sim.Base
use exchange_sim.Base.Assoc
use exchange_sim.Reference

abbrev config : BookConfig
config = record { min_price = pos 100; num_levels = 64; max_orders = 4; stp = Stp.cancel_resting }

abbrev order : MsgType → ℕ → Side → ℕ → ℕ → ℕ → Command
order type id side price qty owner = record {
  order_id = id;
  price = pos price;
  seq = 0;
  ts = 0;
  qty = qty;
  owner = owner;
  symbol = 0;
  type = type;
  side = side;
  ord_type = OrdType.limit;
  tif = Tif.day;
  flags = 0;
}

abbrev commands : List Command
commands =
    order MsgType.new_order 1 Side.sell 110 5 7
    ∷ order MsgType.new_order 2 Side.sell 110 4 8
    ∷ order MsgType.new_order 3 Side.sell 111 6 9
    ∷ order MsgType.modify 3 Side.sell 111 2 9
    ∷ order MsgType.new_order 4 Side.buy 111 7 8
    ∷ order MsgType.new_order 5 Side.buy 105 1 8
    ∷ order MsgType.cancel 5 Side.buy 0 0 8
    ∷ []

-- The command on the two books side by side.
abbrev step : Command → Option (Book × Sink) → Option (Book × Sink)
step c none = none
step c (some r) = elim c.type [
  | MsgType.new_order ↦ Commands.add OrderIndex.locality c r.0 r.1
  | MsgType.cancel ↦ Commands.cancel OrderIndex.locality c r.0 r.1
  | MsgType.modify ↦ Commands.modify OrderIndex.locality c r.0 r.1
]

abbrev run : List Command → Option (Book × Sink) → Option (Book × Sink)
run [] o = o
run (c ∷ cs) o = run cs (step c o)

abbrev start : Option Book → Option (Book × Sink)
start none = none
start (some b) = some (b, [])

abbrev ref_step : Command → Option (Reference.Book × Sink) → Option (Reference.Book × Sink)
ref_step c none = none
ref_step c (some r) = elim c.type [
  | MsgType.new_order ↦ some (Reference.add c r.0 r.1)
  | MsgType.cancel ↦ Reference.cancel c r.0 r.1
  | MsgType.modify ↦ Reference.modify c r.0 r.1
]

abbrev ref_run : List Command → Option (Reference.Book × Sink) → Option (Reference.Book × Sink)
ref_run [] o = o
ref_run (c ∷ cs) o = ref_run cs (ref_step c o)

abbrev sink_of : {B : Type 0} → Option (B × Sink) → Option Sink
sink_of none = none
sink_of (some r) = some r.1

audit_of : Option (Book × Sink) → Bool
audit_of none = false
audit_of (some r) = Queries.check_invariants OrderIndex.locality r.0

-- The book passes its audit, and it and the reference book report the same.
agree :
    (audit_of (run commands (start (new 0 config))) ≡ true)
    × (sink_of (run commands (start (new 0 config)))
        ≡ sink_of (ref_run commands (some (Reference.new 0 config, []))))
unfolding audit_of PriceBitmap.new PriceBitmap.bit PriceBitmap.word PriceBitmap.or_at
    PriceBitmap.clear_at PriceBitmap.set_bit PriceBitmap.clear_bit PriceBitmap.test
    PriceBitmap.next_word PriceBitmap.from_bit PriceBitmap.next_from PriceBitmap.find_next
    PriceBitmap.top_bit PriceBitmap.prev_word PriceBitmap.upto_bit PriceBitmap.prev_before
    PriceBitmap.prev_from PriceBitmap.find_prev Words.bit_at Words.tabulate Words.word_of
    Words.no_bits Words.one Words.all_bits Words.or_word Words.and_word Words.not_word
    Words.shift_left Words.shift_right Words.is_zero Words.countr_zero Words.countl_zero
    OrderIndex.locality OrderIndex.fold_high OrderIndex.scatter OrderIndex.ceil_bits
    OrderIndex.empty_slot OrderIndex.new OrderIndex.slot OrderIndex.after OrderIndex.home
    OrderIndex.dist OrderIndex.seek OrderIndex.position OrderIndex.find OrderIndex.place
    OrderIndex.insert OrderIndex.shift_back OrderIndex.remove_at OrderIndex.seek_value
    OrderIndex.erase_known OrderIndex.erase OrderIndex.ordered_from OrderIndex.robin_hood_ordered
    OrderStore.links OrderStore.build_free_list OrderStore.alloc OrderStore.release
    OrderStore.set_next Records.new Records.order Records.next Records.put Records.link
    Records.set_prev Records.set_qty Records.init Records.take_slot Records.free_slot
    Sweep.sub_level_qty Sweep.drop_maker Sweep.decrement_maker Sweep.after_cancel Sweep.cancel_maker
    Sweep.meet_own Sweep.trade_with Sweep.is_own Sweep.sweep_round Sweep.sweep_queue
    Sweep.facing_best Sweep.next_best Sweep.close_level Sweep.capacity Sweep.sweep Sweep.scan_order
    Sweep.scan_queue Sweep.scan_level Sweep.in_reach Sweep.level_after Sweep.fillable_from
    Sweep.fillable Commands.level_index Commands.limit_of Commands.settle Commands.taker_of
    Commands.may_fill Commands.accept Commands.add Commands.cancel Commands.amend
    Commands.settle_again Commands.reenter Commands.replace Commands.modify_order Commands.modify
    Queries.is_some_bid Queries.best_bid Queries.best_ask Queries.best_bid_qty Queries.best_ask_qty
    Queries.order_count Queries.contains Queries.find_order Queries.queue_from Queries.queue
    Queries.visit_slots Queries.visit_level Queries.bid_levels Queries.ask_levels Queries.levels_of
    Queries.visit_levels Queries.for_each_order Queries.level_sums Queries.for_each_level
    Queries.has_bit Queries.level_qty Queries.visit_sides Queries.for_each_order_at
    Queries.order_is_good Queries.audit_queue Queries.audit_side Queries.audit_level
    Queries.audit_levels Queries.same_int Queries.bests_are_good Queries.check_invariants
    OrderBook.new OrderBook.level OrderBook.put_level OrderBook.key_of OrderBook.add_qty
    OrderBook.sub_qty OrderBook.crosses OrderBook.price_at OrderBook.retire_level
    OrderBook.unlink_links OrderBook.unlink OrderBook.occupy_level OrderBook.append_slot
    OrderBook.rest Reference.new Reference.crosses Reference.match Reference.rest Reference.settle
    Reference.accept Reference.add Reference.remove Reference.cancel Reference.reenter
    Reference.modify_order Reference.modify Sides.push_back Sides.find_in Sides.find_order_at
    Sides.erase_from Sides.keep_level Sides.remove_order Sides.set_qty_in Sides.set_qty_at
    Sides.level_qty Match.cancel_maker Match.decrement_taker Match.meet_own Match.trade_with
    Match.match_front Match.match_queue Match.match_side Match.scan_own Match.scan_front
    Match.scan_queue Match.fillable Domain.stp_code Domain.stp_flag Domain.effective_stp
    Domain.is_post_only Domain.accepted_event Domain.rejected_event Domain.trade_event
    Domain.canceled_event Domain.modified_event Domain.stp_decrement_event Base.drop Base.take ◌+ℤ◌
    ◌-ℤ◌ Assoc.lookup Assoc.erase Assoc.count
agree = (refl, refl)

-- An empty book of 64 levels and four orders.
abbrev empty : Book
empty = record {
  symbol = 0;
  min_price = pos 100;
  n = 64;
  stp = Stp.none;
  best_bid = negsuc 0;
  best_ask = 64;
  levels = replicate 64 no_level;
  bid_bits = record { n = 64; words = no_bits ∷ []; summary = no_bits ∷ [] };
  ask_bits = record { n = 64; words = no_bits ∷ []; summary = no_bits ∷ [] };
  ids = OrderIndex.new 4;
  store = Records.new 4;
}

empty-IsQueue : IsQueue empty.store (level 3 empty) []
unfolding level
empty-IsQueue = record { leads = refl; backs = tt; ends = refl; distinct = tt; inside = tt }

append_slot-IsQueue_example :
    IsQueue
      (append_slot 0 Side.sell 3 5 empty).store
      (level 3 (append_slot 0 Side.sell 3 5 empty))
      ([] ++ 0 ∷ [])
unfolding Records.new OrderStore.build_free_list OrderStore.links
append_slot-IsQueue_example =
    append_slot-IsQueue 0 Side.sell 3 5 empty (omega arith)
      (omega arith, (omega arith, omega arith)) [] empty-IsQueue tt

abbrev one : Book
one = append_slot 0 Side.sell 3 5 empty

unlink_links-IsQueue_example :
    IsQueue (unlink_links 0 (level 3 one) one.store).1 (unlink_links 0 (level 3 one) one.store).0 []
unlink_links-IsQueue_example =
    unlink_links-IsQueue one.store (level 3 one) [] 0 [] append_slot-IsQueue_example
