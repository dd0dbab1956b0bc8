-- ===== src/WireFile/Stream.antt =====
-- include/exsim/wire_file.hpp: `decode_stream` of what `encode_stream` writes, and of any buffer.
use exchange_sim.Base.{
  ℕ, zero, suc, ◌+◌, ◌-◌, ◌%◌, ◌^◌, ◌<◌, ◌≡◌, refl, ◌≢◌, ap, ◌∙◌, List, [], ◌∷◌, length, drop,
  length-drop, some, none, Option, arith, false, map, All,
}
use exchange_sim.Domain.{Command, MsgType}
use exchange_sim.Wire.Bytes.{to_le, to_price}
use exchange_sim.Wire.RoundTrip.{IsWide, carried, decode-encode}
use exchange_sim.Wire.Framing.{decode-Ending, decode-out, first_bytes, size_bounds}
use exchange_sim.Wire.{
  decode, encode, encoded_size, good, write_header, write_new_order, write_cancel, write_modify,
}
use exchange_sim.WireFile.{
  DecodeStats, encode_stream, push_front, decode_loop, no_stats, decode_stream,
}

-- What follows an encoded command in the buffer.
drop-encode :
    (t : MsgType) (c : Command) (rest : List ℕ)
    → drop (encoded_size (record c { type = t })) (encode (record c { type = t }) rest) ≡ rest
unfolding encode write_new_order write_cancel write_modify write_header to_price to_le drop
drop-encode MsgType.new_order c rest = refl
drop-encode MsgType.cancel c rest = refl
drop-encode MsgType.modify c rest = refl

push_front-ends :
    (c : Command) (r : Option (List Command × DecodeStats)) → r ≢ none → push_front c r ≢ none
push_front-ends c none h = h
push_front-ends c (some r) h = λ e. cc

-- The loop ends with a result when the fuel exceeds the bytes.
decode_loop-ends :
    (fuel : ℕ) (p : List ℕ) (st : DecodeStats) → length p < fuel → decode_loop fuel p st ≢ none
unfolding decode_loop
decode_loop-ends zero p st h = absurd (omega arith)
decode_loop-ends (suc fuel) [] st h = λ e. cc
decode_loop-ends (suc fuel) (b ∷ p) st h =
    let r = decode (b ∷ p) in
    let rest = drop r.consumed (b ∷ p) in
    ground (
      arith,
      decode-Ending (b ∷ p),
      decode-out (b ∷ p),
      length-drop r.consumed (b ∷ p),
      decode_loop-ends fuel rest (record st { ok = (st.ok + 1) % 2 ^ 64 }),
      decode_loop-ends fuel rest (record st { malformed = (st.malformed + 1) % 2 ^ 64 }),
    )

decode_loop-good :
    (fuel n : ℕ) (p : List ℕ) (c : Command) (st : DecodeStats)
    → 0 < length p
    → decode p ≡ good n c
    → decode_loop (suc fuel) p st
      ≡ push_front c (decode_loop fuel (drop n p) (record st { ok = (st.ok + 1) % 2 ^ 64 }))
unfolding decode_loop
decode_loop-good fuel n [] c st h e = absurd (omega arith)
decode_loop-good fuel n (b ∷ p) c st h e = ground (arith, e)

decode_loop-empty : (fuel : ℕ) (st : DecodeStats) → decode_loop (suc fuel) [] st ≡ some ([], st)
unfolding decode_loop
decode_loop-empty fuel st = refl

-- The loop over an encoded stream, from any counts.
decode_loop-encode :
    (cmds : List Command) (fuel : ℕ) (st : DecodeStats)
    → All IsWide cmds
    → length (encode_stream cmds) < fuel
    → st.ok + length cmds < 2 ^ 64
    → decode_loop fuel (encode_stream cmds) st
      ≡ some (map carried cmds, record st { ok = st.ok + length cmds })
unfolding encode_stream
decode_loop-encode cmds zero st w h b = absurd (omega arith)
decode_loop-encode [] (suc fuel) st w h b = ground (arith, decode_loop-empty fuel st)
decode_loop-encode (c ∷ cmds) (suc fuel) st w h b =
    let rest = encode_stream cmds in
    let st' : DecodeStats = record st { ok = (st.ok + 1) % 2 ^ 64 } in
    let (r, f) = first_bytes c.type c rest in
    let n : length (encode c rest) ≡ suc (suc (length r)) = ap length f in
    let d = drop-encode c.type c rest in
    let g : length (drop (encoded_size c) (encode c rest))
        ≡ length (encode c rest) - encoded_size c =
      length-drop (encoded_size c) (encode c rest) in
    let l : length rest < fuel = omega (arith, n, ap length d, g, size_bounds c.type c) in
    let i = decode_loop-encode cmds fuel st' w.1 l (omega arith) in
    let j =
      decode_loop-good fuel (encoded_size c) (encode c rest) (carried c) st (omega (arith, n))
        (decode-encode c rest w.0) in
    let q : st'.ok + length cmds ≡ st.ok + length (c ∷ cmds) = omega arith in
    j
    ∙ ap (push_front (carried c)) (ap (λ (p : List ℕ). decode_loop fuel p st') d ∙ i)
    ∙ ap (λ (x : ℕ). some (map carried (c ∷ cmds), record st { ok = x })) q

-- The loop over a capture ends with a result, whatever the bytes of the capture.
pub decode_stream_ends : (buf : List ℕ) → decode_stream buf ≢ none
unfolding decode_stream
decode_stream_ends buf = decode_loop-ends (length buf + 1) buf no_stats (omega arith)

-- A capture of encoded commands decodes to what their messages carry, all of them and in order; all
-- are counted, none as malformed, and the capture is not truncated. The fields of the commands are
-- as wide as in the source, and their number is below 2^64.
pub decode_stream-encode_stream :
    (cmds : List Command)
    → All IsWide cmds
    → length cmds < 2 ^ 64
    → decode_stream (encode_stream cmds)
      ≡ some (map carried cmds, record { ok = length cmds; malformed = 0; truncated = false })
unfolding decode_stream
decode_stream-encode_stream cmds w h =
    let q : 0 + length cmds ≡ length cmds = omega arith in
    decode_loop-encode cmds (length (encode_stream cmds) + 1) no_stats w (omega arith) (omega arith)
    ∙ ap (λ (x : ℕ). some (map carried cmds, record no_stats { ok = x })) q
