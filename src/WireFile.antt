-- ===== src/WireFile.antt =====
-- include/exsim/wire_file.hpp: captures of the wire protocol. The loop over the buffer runs on fuel,
-- one more than the bytes of the buffer; `none` is the end of the fuel.
pub mod Stream
pub mod Tests
use exchange_sim.Base.{
  ℕ, zero, suc, ◌+◌, ◌%◌, ◌^◌, ◌==◌, Bool, true, false, Option, none, some, List, [], ◌∷◌, length,
  drop,
}
use exchange_sim.Domain.{Command}
use exchange_sim.Wire.{DecodeStatus, DecodeResult, decode, encode}

unfoldable pub encode_stream : List Command → List ℕ
encode_stream [] = []
encode_stream (c ∷ cmds) = encode c (encode_stream cmds)

pub record DecodeStats : Type 0 where
  pub ok : ℕ
  pub malformed : ℕ
  pub truncated : Bool

-- `out.push_back(c)` before what the loop decodes after it.
abbrev pub push_front :
    Command → Option (List Command × DecodeStats) → Option (List Command × DecodeStats)
push_front c none = none
push_front c (some (cs, st)) = some (c ∷ cs, st)

abbrev pub truncate : DecodeStats → Option (List Command × DecodeStats)
truncate st = some ([], record st { truncated = true })

-- `p` is the buffer from `off` on.
unfoldable pub decode_loop : ℕ → List ℕ → DecodeStats → Option (List Command × DecodeStats)
decode_loop zero p st = none
decode_loop (suc fuel) [] st = some ([], st)
decode_loop (suc fuel) (b ∷ p) st =
    let r = decode (b ∷ p) in
    let rest = drop r.consumed (b ∷ p) in
    elim r.status [
      | DecodeStatus.ok ↦ elim r.out [
        | none ↦ none
        | some c ↦ push_front c (decode_loop fuel rest (record st { ok = (st.ok + 1) % 2 ^ 64 }))
      ]
      | DecodeStatus.malformed ↦ elim (r.consumed == 0) [
        | true ↦ truncate st
        | false ↦ decode_loop fuel rest (record st { malformed = (st.malformed + 1) % 2 ^ 64 })
      ]
      | DecodeStatus.incomplete ↦ truncate st
    ]

abbrev pub no_stats : DecodeStats
no_stats = record { ok = 0; malformed = 0; truncated = false }

unfoldable pub decode_stream : List ℕ → Option (List Command × DecodeStats)
decode_stream buf = decode_loop (length buf + 1) buf no_stats
