-- ===== src/Sinks/Tests.antt =====
-- include/exsim/sinks.hpp: a stream of two events.
use exchange_sim.Base.{◌≡◌, ◌%◌, ◌^◌, length, [], ◌∷◌, List}
use exchange_sim.Base.Int.{pos}
use exchange_sim.Domain.{Side, Event, EventType, accepted_event, trade_event}
use exchange_sim.Sinks.Counters.{count_type, traded, counters_lem}
use exchange_sim.Sinks.{new, on_events, count}

abbrev stream : List Event
stream = accepted_event 0 2 Side.buy (pos 100) 5 ∷ trade_event 0 2 1 Side.buy (pos 100) 3 0 ∷ []

counters_lem_example :
    ((on_events stream new).digest.count ≡ length stream % 2 ^ 64)
    × ((count EventType.trade (on_events stream new) ≡ count_type EventType.trade stream % 2 ^ 64)
        × ((on_events stream new).volume ≡ traded stream % 2 ^ 64))
counters_lem_example = counters_lem stream EventType.trade
