-- ===== src/Sinks.antt =====
-- include/exsim/sinks.hpp: the digest of a stream of events, and the sink that counts them. Events come
-- one by one; a stream is a list, oldest first.
pub mod Counters
pub mod Tests
use exchange_sim.Base.{
  ℕ, ◌+◌, ◌*◌, ◌/◌, ◌%◌, ◌^◌, bit_xor, Bool, true, false, List, [], ◌∷◌, get_or, set, replicate,
}
use exchange_sim.Base.Int.{ℤ}
use exchange_sim.Domain.{Event, EventType}
use exchange_sim.Wire.Bytes.{price_word}
use exchange_sim.Wire.{side_code}
use exchange_sim.Wire.Reports.{event_type_code, reason_code, request_code}

-- `std::rotl` by 27 of a 64-bit word.
unfoldable pub rotl27 : ℕ → ℕ
rotl27 x = x * 2 ^ 27 % 2 ^ 64 + x / 2 ^ 37

-- The six words of an event's bytes, as a little-endian machine copies them.
unfoldable pub words_of : Event → List ℕ
words_of e =
    e.order_id
    ∷ e.maker_id
    ∷ price_word e.price
    ∷ e.qty
    ∷ e.leaves
    ∷ (e.symbol
        + event_type_code e.type * 2 ^ 32
        + reason_code e.reason * 2 ^ 40
        + side_code e.side * 2 ^ 48
        + request_code e.request * 2 ^ 56)
    ∷ []

pub record EventDigest : Type 0 where
  pub h : ℕ
  pub count : ℕ

unfoldable pub new_digest : EventDigest
new_digest = record { h = 0xcbf29ce484222325; count = 0 }

unfoldable pub mix_words : List ℕ → ℕ → ℕ
mix_words [] h = h
mix_words (x ∷ xs) h = mix_words xs (rotl27 (bit_xor h x * 0x9E3779B97F4A7C15 % 2 ^ 64))

unfoldable pub digest_event : Event → EventDigest → EventDigest
digest_event e d = record { h = mix_words (words_of e) d.h; count = (d.count + 1) % 2 ^ 64 }

unfoldable pub fold_high : ℕ → ℕ
fold_high k = bit_xor k (k / 2 ^ 33)

unfoldable pub value : EventDigest → ℕ
value d =
    let a = fold_high (bit_xor d.h d.count) * 0xff51afd7ed558ccd % 2 ^ 64 in
    let b = fold_high a * 0xc4ceb9fe1a85ec53 % 2 ^ 64 in fold_high b

pub record CountingSink : Type 0 where
  pub digest : EventDigest
  pub by_type : List ℕ
  pub volume : ℕ

unfoldable pub new : CountingSink
new = record { digest = new_digest; by_type = replicate 8 0; volume = 0 }

abbrev pub is_trade : EventType → Bool
is_trade EventType.trade = true
is_trade _ = false

unfoldable pub on_event : Event → CountingSink → CountingSink
on_event e s =
    let i = event_type_code e.type % 8 in
    record {
      digest = digest_event e s.digest;
      by_type = set s.by_type i ((get_or s.by_type i 0 + 1) % 2 ^ 64);
      volume = elim (is_trade e.type) [ true ↦ (s.volume + e.qty) % 2 ^ 64 | false ↦ s.volume ];
    }

unfoldable pub count : EventType → CountingSink → ℕ
count t s = get_or s.by_type (event_type_code t) 0

unfoldable pub on_events : List Event → CountingSink → CountingSink
on_events [] s = s
on_events (e ∷ es) s = on_events es (on_event e s)
