-- ===== src/Sinks/Counters.antt =====
-- include/exsim/sinks.hpp: the counters against the stream.
use exchange_sim.Base.{
  ℕ, ◌+◌, ◌%◌, ◌^◌, ◌<◌, ◌==◌, if◌then◌else◌, ◌≡◌, refl, ap, ◌∙◌, Bool-cases, inl, inr, List, [],
  ◌∷◌, length, get_or, set, arith, length-set, get_or-set_self, get_or-set_ne,
}
use exchange_sim.Domain.{Event, EventType}
use exchange_sim.Wire.Reports.{event_type_code}
use exchange_sim.Sinks.{
  CountingSink, new, new_digest, digest_event, on_event, on_events, count, is_trade,
}

-- How many events of a stream have a type, and the sum of the quantities of its trades.
unfoldable pub count_type : EventType → List Event → ℕ
count_type t [] = 0
count_type t (e ∷ es) =
    (if event_type_code e.type == event_type_code t then 1 else 0) + count_type t es

unfoldable pub traded : List Event → ℕ
traded [] = 0
traded (e ∷ es) = (if is_trade e.type then e.qty else 0) + traded es

code_bound : (t : EventType) → event_type_code t < 8
code_bound t = ground arith

types-on_event : (e : Event) (s : CountingSink) → length (on_event e s).by_type ≡ length s.by_type
unfolding on_event
types-on_event e s = length-set s.by_type (event_type_code e.type % 8) _

events-on_event :
    (e : Event) (s : CountingSink) → (on_event e s).digest.count ≡ (s.digest.count + 1) % 2 ^ 64
unfolding on_event digest_event
events-on_event e s = refl

new_types : length new.by_type ≡ 8
unfolding new
new_types = refl

new_count : (t : EventType) → count t new ≡ 0
unfolding new count
new_count EventType.accepted = refl
new_count EventType.rejected = refl
new_count EventType.trade = refl
new_count EventType.canceled = refl
new_count EventType.modified = refl

new_digest_count : new.digest.count ≡ 0
unfolding new new_digest
new_digest_count = refl

new_volume : new.volume ≡ 0
unfolding new
new_volume = refl

module _ (t : EventType) where
  count-on_event :
      (e : Event) (s : CountingSink)
      → length s.by_type ≡ 8
      → count t (on_event e s) ≡ (
          if event_type_code e.type == event_type_code t
          then (count t s + 1) % 2 ^ 64
          else count t s)
  unfolding count on_event
  count-on_event e s h =
      let i = event_type_code e.type % 8 in
      let k = event_type_code e.type in
      let j = event_type_code t in
      let b : i ≡ k = omega (arith, code_bound e.type) in
      elim (Bool-cases (k == j)) [
        | inl c ↦
            let d : j ≡ i = ground (arith, c, b) in
            rw (c) (
              ap (λ (m : ℕ). get_or (set s.by_type i ((get_or s.by_type i 0 + 1) % 2 ^ 64)) m 0) d
              ∙ get_or-set_self s.by_type i ((get_or s.by_type i 0 + 1) % 2 ^ 64) 0
                  (omega (arith, h))
              ∙ ap (λ (m : ℕ). (get_or s.by_type m 0 + 1) % 2 ^ 64) (ground (arith, d)))
        | inr c ↦
            rw (c) (
              get_or-set_ne s.by_type ((get_or s.by_type i 0 + 1) % 2 ^ 64) 0
                (ground (arith, c, b)))
      ]

  count-on_events :
      (es : List Event) (s : CountingSink)
      → length s.by_type ≡ 8
      → count t s < 2 ^ 64
      → count t (on_events es s) ≡ (count t s + count_type t es) % 2 ^ 64
  unfolding on_events count_type
  count-on_events [] s h b = omega (arith, b)
  count-on_events (e ∷ es) s h b =
      let c = count-on_event e s h in
      let b' : count t (on_event e s) < 2 ^ 64 = ground (arith, c, b) in
      count-on_events es (on_event e s) (types-on_event e s ∙ h) b' ∙ ground (arith, c)

volume-on_event :
    (e : Event) (s : CountingSink)
    → s.volume < 2 ^ 64
    → (on_event e s).volume ≡ (s.volume + (if is_trade e.type then e.qty else 0)) % 2 ^ 64
unfolding on_event
volume-on_event e s b = elim (Bool-cases (is_trade e.type)) [
  | inl c ↦ ground (arith, c)
  | inr c ↦ ground (arith, c, b)
]

volume-on_events :
    (es : List Event) (s : CountingSink)
    → s.volume < 2 ^ 64
    → (on_events es s).volume ≡ (s.volume + traded es) % 2 ^ 64
unfolding on_events traded
volume-on_events [] s b = omega (arith, b)
volume-on_events (e ∷ es) s b =
    let c = volume-on_event e s b in
    volume-on_events es (on_event e s) (omega (arith, c)) ∙ omega (arith, c)

events-on_events :
    (es : List Event) (s : CountingSink)
    → s.digest.count < 2 ^ 64
    → (on_events es s).digest.count ≡ (s.digest.count + length es) % 2 ^ 64
unfolding on_events
events-on_events [] s b = omega (arith, b)
events-on_events (e ∷ es) s b =
    let c = events-on_event e s in
    events-on_events es (on_event e s) (omega (arith, c)) ∙ omega (arith, c)

-- A new sink that has taken a stream has counted its events, those of each type, and the quantity of its
-- trades, each in 64 bits.
pub counters_lem :
    (es : List Event) (t : EventType)
    → ((on_events es new).digest.count ≡ length es % 2 ^ 64)
      × ((count t (on_events es new) ≡ count_type t es % 2 ^ 64)
          × ((on_events es new).volume ≡ traded es % 2 ^ 64))
counters_lem es t =
    let a = events-on_events es new (omega (arith, new_digest_count)) in
    let b = count-on_events t es new new_types (omega (arith, new_count t)) in
    let c = volume-on_events es new (omega (arith, new_volume)) in
    (
      omega (arith, a, new_digest_count),
      (omega (arith, b, new_count t), omega (arith, c, new_volume)),
    )
