-- ===== src/SpscQueue.antt =====
-- include/exsim/spsc_queue.hpp: the ring between one producer and one consumer. The indices are
-- free-running 64-bit counters; the capacity is a power of two, so `& mask_` is the remainder by it.
-- The steps are those that the other side can see: a load of its index, and the store that publishes.
pub mod Steps
pub mod Calls
pub mod Interleaving
pub mod Tests
use exchange_sim.Base.{
  ℕ, suc, zero, ◌+◌, ◌-◌, ◌%◌, ◌^◌, ltb, leb, ◌==◌, if◌then◌else◌, Bool, true, false, Option, none,
  some, List, get_or, set, replicate,
}

pub record SpscQueue {ℓ} (A : Type ℓ) : Type ℓ where
  pub cap : ℕ
  pub tail : ℕ
  pub head_cache : ℕ
  pub head : ℕ
  pub tail_cache : ℕ
  pub buf : List A

-- `std::bit_ceil`, by its exponent: the first from `b` on whose power of two is `x` or more.
unfoldable pub ceil_bits : ℕ → ℕ → ℕ → ℕ
ceil_bits zero b x = b
ceil_bits (suc n) b x = elim (leb x (2 ^ b)) [ true ↦ b | false ↦ ceil_bits n (b + 1) x ]

module _ {ℓ} {A : Type ℓ} where
  -- The constructor; the elements of a new ring are `zeroed`.
  unfoldable pub new : A → ℕ → SpscQueue A
  new zeroed capacity =
      let cap = 2 ^ ceil_bits 63 0 (if ltb capacity 2 then 2 else capacity) in
      record {
        cap = cap;
        tail = 0;
        head_cache = 0;
        head = 0;
        tail_cache = 0;
        buf = replicate cap zeroed;
      }

  -- Whether the ring looks full to the producer.
  unfoldable pub looks_full : SpscQueue A → Bool
  looks_full q = (q.tail + (2 ^ 64 - q.head_cache)) % 2 ^ 64 == q.cap

  -- The producer's load of `head_`.
  unfoldable pub load_head : SpscQueue A → SpscQueue A
  load_head q = record q { head_cache = q.head }

  -- The write of the element and the store of `tail_`.
  unfoldable pub publish : A → SpscQueue A → SpscQueue A
  publish v q = record q { buf = set q.buf (q.tail % q.cap) v; tail = (q.tail + 1) % 2 ^ 64 }

  unfoldable pub try_push : A → SpscQueue A → Bool × SpscQueue A
  try_push v q = elim (looks_full q) [
    | false ↦ (true, publish v q)
    | true ↦
        let q' = load_head q in
        elim (looks_full q') [ true ↦ (false, q') | false ↦ (true, publish v q') ]
  ]

  unfoldable pub looks_empty : SpscQueue A → Bool
  looks_empty q = q.head == q.tail_cache

  -- The consumer's load of `tail_`.
  unfoldable pub load_tail : SpscQueue A → SpscQueue A
  load_tail q = record q { tail_cache = q.tail }

  -- The oldest element, `none` for a null pointer; a slot outside the ring would read as `zeroed`.
  unfoldable pub front : A → SpscQueue A → Option A × SpscQueue A
  front zeroed q = elim (looks_empty q) [
    | false ↦ (some (get_or q.buf (q.head % q.cap) zeroed), q)
    | true ↦
        let q' = load_tail q in
        elim (looks_empty q') [
          | true ↦ (none, q')
          | false ↦ (some (get_or q.buf (q.head % q.cap) zeroed), q')
        ]
  ]

  unfoldable pub pop : SpscQueue A → SpscQueue A
  pop q = record q { head = (q.head + 1) % 2 ^ 64 }

  unfoldable pub try_pop : A → SpscQueue A → Option A × SpscQueue A
  try_pop zeroed q = let r = front zeroed q in elim r.0 [ none ↦ r | some v ↦ (some v, pop r.1) ]

  unfoldable pub size_approx : SpscQueue A → ℕ
  size_approx q = (q.tail + (2 ^ 64 - q.head)) % 2 ^ 64
