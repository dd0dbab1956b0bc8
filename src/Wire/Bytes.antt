-- ===== src/Wire/Bytes.antt =====
-- include/exsim/protocol.hpp: little-endian fields of a packed struct, as `memcpy` copies them.
use exchange_sim.Base.{
  ℕ, zero, suc, ◌+◌, ◌-◌, ◌*◌, ◌/◌, ◌%◌, ◌<◌, ◌≡◌, ltb, if◌then◌else◌, List, [], ◌∷◌, length, arith,
}
use exchange_sim.Base.Int.{ℤ, pos, negsuc}

-- `to_le k v rest` is the `k` low bytes of `v`, the lowest first, and then `rest`.
unfoldable pub to_le : ℕ → ℕ → List ℕ → List ℕ
to_le zero v rest = rest
to_le (suc k) v rest = v % 256 ∷ to_le k (v / 256) rest

-- The number in the first `k` bytes, and the bytes behind them. No read passes the end of the
-- bytes: `decode` tests the length before.
unfoldable pub read_le : ℕ → List ℕ → ℕ × List ℕ
read_le zero p = (0, p)
read_le (suc k) [] = (0, [])
read_le (suc k) (b ∷ p) = let r = read_le k p in (b + 256 * r.0, r.1)

-- A signed 64-bit field, in two's complement.
abbrev pub price_word : ℤ → ℕ
price_word (pos n) = n
price_word (negsuc n) = 18446744073709551615 - n

unfoldable pub to_price : ℤ → List ℕ → List ℕ
to_price p rest = to_le 8 (price_word p) rest

unfoldable pub read_price : List ℕ → ℤ × List ℕ
read_price p =
    let r = read_le 8 p in
    (if ltb r.0 9223372036854775808 then pos r.0 else negsuc (18446744073709551615 - r.0), r.1)

-- How many values `k` bytes have.
abbrev pub values : ℕ → ℕ
values zero = 1
values (suc k) = 256 * values k

pub read_le-to_le :
    (k v : ℕ) (rest : List ℕ) → v < values k → read_le k (to_le k v rest) ≡ (v, rest)
unfolding read_le to_le
read_le-to_le zero v rest h = ground arith
read_le-to_le (suc k) v rest h = ground (arith, read_le-to_le k (v / 256) rest)

pub length-to_le : (k v : ℕ) (rest : List ℕ) → length (to_le k v rest) ≡ k + length rest
unfolding to_le
length-to_le zero v rest = omega arith
length-to_le (suc k) v rest = omega (arith, length-to_le k (v / 256) rest)

-- The prices that 64 bits hold.
abbrev pub IsPrice : ℤ → Type 0
IsPrice (pos n) = n < 9223372036854775808
IsPrice (negsuc n) = n < 9223372036854775808

pub read_price-to_price :
    (p : ℤ) (rest : List ℕ) → IsPrice p → read_price (to_price p rest) ≡ (p, rest)
unfolding read_price to_price
read_price-to_price (pos n) rest h = ground (arith, read_le-to_le 8 n rest)
read_price-to_price (negsuc n) rest h =
    ground (arith, read_le-to_le 8 (18446744073709551615 - n) rest)

pub length-to_price : (p : ℤ) (rest : List ℕ) → length (to_price p rest) ≡ 8 + length rest
unfolding to_price
length-to_price p rest = length-to_le 8 (price_word p) rest
