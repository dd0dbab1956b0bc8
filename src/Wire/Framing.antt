-- ===== src/Wire/Framing.antt =====
-- include/exsim/protocol.hpp: what `decode` makes of any bytes, and of a message cut short.
use exchange_sim.Base.{
  ℕ, ◌+◌, ◌*◌, ◌<◌, ◌≤◌, ◌≡◌, ◌≢◌, refl, ap, ◌∙◌, ◌⊎◌, List, [], ◌∷◌, ◌++◌, length, none, arith,
  length-append,
}
use exchange_sim.Domain.{MsgType, Command}
use exchange_sim.Wire.Bytes.{read_le, to_le, length-to_le, length-to_price}
use exchange_sim.Wire.RoundTrip.{length-write_header, length-new_order_body, new_order_body}
use exchange_sim.Wire.{
  Header, DecodeResult, DecodeStatus, read_header, write_header, decode_new_order, decode_cancel,
  decode_modify, decode_body, decode_framed, decode, encode, encoded_size, incomplete_result,
  header_of, new_order_of, write_new_order, write_cancel, write_modify,
}

-- The three ends of `decode` on a buffer of this size.
abbrev pub Ending : ℕ → DecodeResult → Type 0
Ending avail r =
    ((r.status ≡ DecodeStatus.incomplete) × (r.consumed ≡ 0) × (r.out ≡ none))
    ⊎ (((r.status ≡ DecodeStatus.malformed) × (r.consumed ≤ avail) × (r.out ≡ none))
        ⊎ ((r.status ≡ DecodeStatus.ok) × (24 ≤ r.consumed) × (r.consumed ≤ avail)))

framed-Ending : (avail : ℕ) (h : Header) (p : List ℕ) → Ending avail (decode_framed avail h p)
unfolding decode_framed decode_body decode_new_order decode_cancel decode_modify
framed-Ending avail h p = ground arith

-- Whatever bytes come in, `decode` consumes no more than there are: nothing when it waits for more,
-- and at least 24 bytes with a command, so that a loop over a buffer ends.
pub decode-Ending : (p : List ℕ) → Ending (length p) (decode p)
unfolding decode
decode-Ending p = ground (arith, framed-Ending (length p) (read_header p).0 (read_header p).1)

framed_out :
    (avail : ℕ) (h : Header) (p : List ℕ)
    → (decode_framed avail h p).status ≡ DecodeStatus.ok
    → (decode_framed avail h p).out ≢ none
unfolding decode_framed decode_body decode_new_order decode_cancel decode_modify
framed_out avail h p e = ground arith

-- An `ok` result has a command.
pub decode-out : (p : List ℕ) → (decode p).status ≡ DecodeStatus.ok → (decode p).out ≢ none
unfolding decode
decode-out p e = ground (arith, framed_out (length p) (read_header p).0 (read_header p).1)

starts :
    (p q : List ℕ) (a b : ℕ) (r : List ℕ)
    → p ++ q ≡ a ∷ b ∷ r
    → 2 ≤ length p
    → (read_le 2 p).0 ≡ a + 256 * b
unfolding read_le
starts [] q a b r e h = absurd (omega arith)
starts (x ∷ []) q a b r e h = absurd (omega arith)
starts (x ∷ y ∷ p) q a b r e h = ground arith

cut_short :
    (p : List ℕ) (n : ℕ)
    → (16 ≤ length p → (read_le 2 p).0 ≡ n)
    → 16 ≤ n
    → length p < n
    → decode p ≡ incomplete_result
unfolding decode decode_framed read_header
cut_short p n h a b = ground (arith, h)

pub length-by_type :
    (t : MsgType) (c : Command)
    → length (encode (record c { type = t }) []) ≡ encoded_size (record c { type = t })
unfolding encode write_new_order write_cancel write_modify
length-by_type MsgType.new_order c = omega (
  arith,
  length-write_header (header_of 48 (record c { type = MsgType.new_order }))
      (new_order_body (new_order_of (record c { type = MsgType.new_order })) []),
  length-new_order_body (new_order_of (record c { type = MsgType.new_order })) [],
)
length-by_type MsgType.cancel c =
    rw (length-write_header _ _, length-to_le 8 c.order_id []) (omega arith)
length-by_type MsgType.modify c =
    rw
      (
        length-write_header _ _,
        length-to_le 8 c.order_id _,
        length-to_price c.price _,
        length-to_le 8 c.qty [],
      )
      (omega arith)

-- A message starts with its length.
pub first_bytes :
    (t : MsgType) (c : Command) (rest : List ℕ)
    → (r : List ℕ) × (encode (record c { type = t }) rest
        ≡ encoded_size (record c { type = t }) ∷ 0 ∷ r)
unfolding encode write_new_order write_cancel write_modify write_header to_le
first_bytes MsgType.new_order c rest = (_, refl)
first_bytes MsgType.cancel c rest = (_, refl)
first_bytes MsgType.modify c rest = (_, refl)

pub size_bounds : (t : MsgType) (c : Command) → 16 ≤ encoded_size (record c { type = t })
size_bounds t c = ground arith

-- A message that has not come in whole is neither refused nor misread, wherever it is cut: `decode`
-- of its first bytes waits for more and consumes none.
pub decode_cut :
    (c : Command) (p : List ℕ) (x : ℕ) (q : List ℕ)
    → p ++ x ∷ q ≡ encode c []
    → decode p ≡ incomplete_result
decode_cut c p x q e =
    let (r, f) = first_bytes c.type c [] in
    let n : length (p ++ x ∷ q) ≡ encoded_size c = ap length e ∙ length-by_type c.type c in
    cut_short p (encoded_size c)
      (λ h. omega (arith, starts p (x ∷ q) (encoded_size c) 0 r (e ∙ f) (omega arith)))
      (size_bounds c.type c) (omega (arith, length-append p (x ∷ q), n))
