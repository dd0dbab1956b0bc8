-- ===== src/Stream/Subscriber/Delivery.antt =====
-- include/exsim/seqstream.hpp: what a subscriber delivers, and what it asks for.
use exchange_sim.Base.{
  ℕ, ◌+◌, ◌*◌, ◌%◌, ◌^◌, ◌<◌, ◌≤◌, ◌≡◌, ◌≢◌, refl, sym, ◌∙◌, ◌⊎◌, inl, inr, ltb, leb, ◌==◌, true,
  false, not, ◌||◌, some, List, [], ◌∷◌, length, take, All, arith, Bool-cases,
}
use exchange_sim.Domain.{Command}
use exchange_sim.Stream.{Kind, Header, Datagram, k_magic, header_size, command_size}
use exchange_sim.Stream.Subscriber.{
  Subscriber, bump, deliver, take_commands, on_data, on_kind, receive, drain, request_gap, gap_end,
  is_request, is_stale,
}
use exchange_sim.Stream.Subscriber.Runs.{
  IsRun, AreRuns, Delivers, nothing-Delivers, take_commands-Delivers, Delivers-both,
  deliver-Delivers, unstash-Delivers,
}

module _ (stream : ℕ → Command) where
  -- A datagram that says of the stream what it is, if it comes from the primary of this epoch and
  -- carries commands. Other datagrams may hold anything.
  abbrev pub IsTrue : ℕ → Datagram → Type 0
  IsTrue epoch d =
      (d.hdr.epoch ≢ epoch)
      ⊎ ((d.hdr.kind ≢ Kind.commands)
          ⊎ ((d.size ≢ header_size + d.hdr.count * command_size)
              ⊎ ((length (take d.hdr.count d.body) ≡ d.hdr.count)
                  × IsRun stream d.hdr.first_seq (take d.hdr.count d.body))))

  on_data-Delivers :
      (d : Datagram) (s : Subscriber)
      → (length (take d.hdr.count d.body) ≡ d.hdr.count)
        × IsRun stream d.hdr.first_seq (take d.hdr.count d.body)
      → AreRuns stream s.stash
      → d.size ≡ header_size + d.hdr.count * command_size
      → Delivers stream s (on_data d s)
  unfolding on_data
  on_data-Delivers d s (n, h) t e =
      let z : (d.size == header_size + d.hdr.count * command_size) ≡ true = ground arith in
      let u : Subscriber = record s {
        stats = record (s.stats) { packets = bump s.stats.packets };
      } in
      elim (Bool-cases (leb ((d.hdr.first_seq + d.hdr.count) % 2 ^ 64) s.expected)) [
        | inl g ↦
            rw (z, g, on_data)
              (nothing-Delivers stream s
                (record u { stats = record (u.stats) { duplicates = bump u.stats.duplicates } })
                refl t refl)
        | inr g ↦
            rw (z, g, on_data)
              (take_commands-Delivers stream d.hdr.first_seq (take d.hdr.count d.body) u h t
                (ground (arith, n, h.1)))
      ]

  on_kind-Delivers :
      (k : Kind) (d : Datagram) (s : Subscriber)
      → (k ≡ Kind.commands → Delivers stream s (on_data d s))
      → AreRuns stream s.stash
      → Delivers stream s (on_kind k d s)
  unfolding on_kind
  on_kind-Delivers Kind.commands d s h t = h refl
  on_kind-Delivers Kind.heartbeat d s h t = (tt, omega arith, t, refl)
  on_kind-Delivers Kind.end_of_stream d s h t = (tt, omega arith, t, refl)
  on_kind-Delivers Kind.unavailable d s h t = (tt, omega arith, t, refl)
  on_kind-Delivers Kind.retransmit d s h t = nothing-Delivers stream s s refl t refl
  on_kind-Delivers Kind.ack d s h t = nothing-Delivers stream s s refl t refl
  on_kind-Delivers Kind.other d s h t = nothing-Delivers stream s s refl t refl

  -- A datagram of the epoch that is followed, by its kind and size.
  heard-Delivers :
      (d : Datagram) (s : Subscriber)
      → IsTrue s.epoch d
      → d.hdr.epoch ≡ s.epoch
      → AreRuns stream s.stash
      → d.hdr.kind ≡ Kind.commands
      → Delivers stream s (on_data d s)
  unfolding on_data
  heard-Delivers d s (inl n) e t k = absurd (n e)
  heard-Delivers d s (inr (inl n)) e t k = absurd (n k)
  heard-Delivers d s (inr (inr (inl n))) e t k =
      let z : (d.size == header_size + d.hdr.count * command_size) ≡ false = ground arith in
      rw (z, on_data) (nothing-Delivers stream s s refl t refl)
  heard-Delivers d s (inr (inr (inr h))) e t k =
      elim (Bool-cases (d.size == header_size + d.hdr.count * command_size)) [
        | inl z ↦ on_data-Delivers d s h t (ground arith)
        | inr z ↦ rw (z, on_data) (nothing-Delivers stream s s refl t refl)
      ]

  receive-Delivers :
      (now : ℕ) (d : Datagram) (s : Subscriber)
      → s.epoch ≢ 0
      → IsTrue s.epoch d
      → AreRuns stream s.stash
      → Delivers stream s (receive now d s)
  unfolding receive
  receive-Delivers now d s n i t =
      let z0 : (s.epoch == 0) ≡ false = ground arith in
      elim (Bool-cases (ltb d.size header_size)) [
        | inl a ↦ rw (a, receive) (nothing-Delivers stream s s refl t refl)
        | inr a ↦ elim (Bool-cases (not (d.hdr.magic == k_magic) || is_request d.hdr.kind)) [
          | inl b ↦ rw (a, b, receive) (nothing-Delivers stream s s refl t refl)
          | inr b ↦ elim (Bool-cases (is_stale d.hdr.epoch s)) [
            | inl c ↦ rw (a, b, c, receive) ((tt, omega arith, t, refl))
            | inr c ↦ elim (Bool-cases (ltb s.epoch d.hdr.epoch)) [
              | inl e ↦ rw (a, b, c, z0, e, receive) ((tt, omega arith, t, refl))
              | inr e ↦
                  let z : d.hdr.epoch ≡ s.epoch = ground arith in
                  rw (a, b, c, z0, e, receive)
                    (on_kind-Delivers d.hdr.kind d (record s { last_heard = now })
                      (heard-Delivers d (record s { last_heard = now }) i z t) t)
            ]
          ]
        ]
      ]

  abbrev pub AreTrue : ℕ → List (ℕ × Datagram) → Type 0
  AreTrue epoch = All (λ (e : ℕ × Datagram). IsTrue epoch e.1)

  -- A subscriber that follows a primary delivers, of any sequence of datagrams, the primary's
  -- stream from the number that it expected on, each command once and in order, up to the number
  -- that it expects then. What it has stashed at the start, and the datagrams of that primary's
  -- epoch that carry commands, must be true to the stream; any datagram may be lost, repeated or
  -- reordered, and those of other primaries may hold anything.
  pub drain-Delivers :
      (ds : List (ℕ × Datagram)) (s : Subscriber)
      → s.epoch ≢ 0
      → AreTrue s.epoch ds
      → AreRuns stream s.stash
      → Delivers stream s (drain ds s)
  unfolding drain
  drain-Delivers [] s n i t = nothing-Delivers stream s s refl t refl
  drain-Delivers ((now, d) ∷ ds) s n i t =
      let r = receive now d s in
      let a = receive-Delivers now d s n i.0 t in
      Delivers-both stream s r (drain ds r.0) a
        (drain-Delivers ds r.0 (λ e. n (sym a.3 ∙ e)) (rw a.3 i.1) a.2)

  on_data_fills :
      (d : Datagram) (s : Subscriber)
      → (length (take d.hdr.count d.body) ≡ d.hdr.count)
        × IsRun stream d.hdr.first_seq (take d.hdr.count d.body)
      → AreRuns stream s.stash
      → d.size ≡ header_size + d.hdr.count * command_size
      → d.hdr.first_seq ≤ s.expected
      → s.expected < d.hdr.first_seq + d.hdr.count
      → d.hdr.first_seq + d.hdr.count ≤ (on_data d s).0.expected
  unfolding on_data take_commands deliver
  on_data_fills d s (n, h) t e a b =
      let u : Subscriber = record s {
        stats = record (s.stats) { packets = bump s.stats.packets };
      } in
      let cmds = take d.hdr.count d.body in
      let r = deliver d.hdr.first_seq cmds u in
      let g = deliver-Delivers stream d.hdr.first_seq cmds u h t a (omega (arith, n)) in
      let q = unstash-Delivers stream s.stash r.0 t g.2 in
      let z : (d.size == header_size + d.hdr.count * command_size) ≡ true = ground arith in
      let y : leb ((d.hdr.first_seq + d.hdr.count) % 2 ^ 64) s.expected ≡ false =
        ground (arith, n, h.1) in
      let x : ltb s.expected d.hdr.first_seq ≡ false = ground arith in
      rw (z, y, on_data, x, take_commands) (omega (arith, q.1, n, h.1))

  -- A datagram of the followed primary that holds the number that the subscriber expects, as a
  -- retransmission does, closes the gap: the subscriber then expects no number that the datagram
  -- holds. The datagram and what is stashed are true to the stream, its size is right, and its
  -- epoch is one that the subscriber may follow.
  pub receive_fills :
      (now : ℕ) (d : Datagram) (s : Subscriber)
      → s.epoch ≢ 0
      → s.min_epoch ≤ s.epoch
      → AreRuns stream s.stash
      → d.hdr.magic ≡ k_magic
      → d.hdr.epoch ≡ s.epoch
      → d.hdr.kind ≡ Kind.commands
      → d.size ≡ header_size + d.hdr.count * command_size
      → (length (take d.hdr.count d.body) ≡ d.hdr.count)
        × IsRun stream d.hdr.first_seq (take d.hdr.count d.body)
      → d.hdr.first_seq ≤ s.expected
      → s.expected < d.hdr.first_seq + d.hdr.count
      → d.hdr.first_seq + d.hdr.count ≤ (receive now d s).0.expected
  unfolding receive on_kind on_data
  receive_fills now d s n v t m p k e h a b =
      let f = on_data_fills d (record s { last_heard = now }) h t e a b in
      let z0 : (s.epoch == 0) ≡ false = ground arith in
      let w0 : ltb d.size header_size ≡ false = ground arith in
      let w1 : (d.hdr.magic == k_magic) ≡ true = ground arith in
      let w3 : ltb s.epoch s.min_epoch ≡ false = ground arith in
      let w4 : ltb s.epoch s.epoch ≡ false = ground arith in
      rw (w0, w1, k, p, w3, z0, w4, receive, on_kind) f

-- A request for a gap asks for what the subscriber expects next, for something, and for no more than
-- lies in the gap or than 4096 commands.
pub request_gap_lem :
    (now : ℕ) (s t : Subscriber) (h : Header)
    → request_gap now s ≡ (t, some h)
    → (h.first_seq ≡ s.expected)
      × (0 < h.count)
      × (h.count ≤ 4096)
      × (h.first_seq + h.count ≤ gap_end s)
unfolding request_gap
request_gap_lem now s t h e = ground arith
