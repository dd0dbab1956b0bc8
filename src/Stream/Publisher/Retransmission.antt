-- ===== src/Stream/Publisher/Retransmission.antt =====
-- include/exsim/seqstream.hpp: the ring against the stream, and what is sent from it.
use exchange_sim.Base.{
  ℕ, zero, suc, ◌+◌, ◌-◌, ◌%◌, ◌^◌, ◌<◌, ◌≤◌, ◌≡◌, refl, ap, ◌∙◌, subst, inl, inr, ltb, leb, ◌==◌,
  Bool, false, not, ◌||◌, min, some, List, [], ◌∷◌, ◌++◌, length, length-replicate, length-append,
  take_all, All, arith, Bool-cases, get_or, set, length-set, get_or-set_self, get_or-set_ne,
}
use native.Mathlib.Nat.{mod-lt}
use exchange_sim.Base.Remainders.{mod_ne}
use exchange_sim.Domain.{Command}
use exchange_sim.Stream.{Kind, Datagram, k_magic, header_size}
use exchange_sim.Stream.Subscriber.Runs.{IsSlice, append-IsSlice}
use exchange_sim.Stream.Subscriber.Delivery.{IsTrue}
use exchange_sim.Stream.Publisher.{
  Publisher, new, flush, flush_round, k_per_packet, no_command, slot, publish, copy_out, send_data,
  oldest, resend, on_retransmit, on_ack, serve, fenced,
}

module _ (stream : ℕ → Command) where
  -- The ring holds the stream from the oldest number that it names up to the next one.
  pub record HoldsStream (p : Publisher) : Type 0 where
    pub held :
        (s : ℕ) → oldest p ≤ s → s < p.next_seq → get_or p.ring (slot s p) no_command ≡ stream s
    pub sized : 0 < length p.ring
    pub small : p.next_seq + k_per_packet < 2 ^ 64

  copy_out-IsSlice :
      (p : Publisher) (first n : ℕ)
      → HoldsStream p
      → oldest p ≤ first
      → first + n ≤ p.next_seq
      → IsSlice stream first (copy_out first n p) × (length (copy_out first n p) ≡ n)
  unfolding copy_out
  copy_out-IsSlice p first zero h a b = (tt, refl)
  copy_out-IsSlice p first (suc n) h a b =
      let e : (first + 1) % 2 ^ 64 ≡ first + 1 = omega (arith, h.small) in
      let r = copy_out-IsSlice p (first + 1) n h (omega arith) (omega arith) in
      rw e ((h.held first a (omega arith), r.0), ap suc r.1)

  send_data-IsTrue :
      (p : Publisher) (first n : ℕ)
      → HoldsStream p
      → oldest p ≤ first
      → first + n ≤ p.next_seq
      → IsTrue stream p.epoch (send_data first n p)
  unfolding send_data
  send_data-IsTrue p first n h a b =
      let (c, l) = copy_out-IsSlice p first n h a b in
      let t = take_all n (copy_out first n p) l in
      inr (inr (inr (rw t (l, (c, omega (arith, l, h.small))))))

  -- The commands of some datagrams, in order.
  unfoldable pub bodies : List Datagram → List Command
  bodies [] = []
  bodies (d ∷ ds) = d.body ++ bodies ds

  resend-AreTrue :
      (fuel s end : ℕ) (p : Publisher)
      → HoldsStream p
      → oldest p ≤ s
      → end ≤ p.next_seq
      → All (IsTrue stream p.epoch) (resend fuel s end p)
  unfolding resend
  resend-AreTrue zero s end p h a b = tt
  resend-AreTrue (suc fuel) s end p h a b = elim (Bool-cases (ltb s end)) [
    | inr e ↦ rw (e, resend) tt
    | inl e ↦
        let w : (s + k_per_packet) % 2 ^ 64 ≡ s + k_per_packet = ground (arith, h.small) in
        rw (e, resend, w)
          (
            send_data-IsTrue p s (min k_per_packet (end - s)) h a (ground arith),
            resend-AreTrue fuel (s + k_per_packet) end p h (omega arith) b,
          )
  ]

  -- What the ring holds once a command is written to the slot of the next number.
  written :
      (c : Command) (p : Publisher) (s : ℕ)
      → HoldsStream p
      → c ≡ stream c.seq
      → c.seq ≡ p.next_seq
      → oldest p ≤ s
      → p.next_seq - length p.ring < s + 1
      → s < p.next_seq + 1
      → p.next_seq < s + length p.ring
      → get_or (set p.ring (slot c.seq p) c) (slot s p) no_command ≡ stream s
  written c p s h e n o a b d = elim (Bool-cases (s == p.next_seq)) [
    | inl z ↦
        let q : c.seq ≡ s = ground arith in
        subst (λ (k : ℕ). get_or (set p.ring (slot c.seq p) c) (slot k p) no_command ≡ stream k) q
          (get_or-set_self p.ring (slot c.seq p) c no_command
              (mod-lt c.seq {m = length p.ring} h.sized)
            ∙ e)
    | inr z ↦
        let g : s + (c.seq - s) ≡ c.seq = ground arith in
        let m = mod_ne (length p.ring) s (c.seq - s) (ground arith) (ground arith) in
        get_or-set_ne p.ring c no_command
          (λ (x : slot c.seq p ≡ slot s p). m (ap (λ (k : ℕ). k % length p.ring) g ∙ x))
        ∙ h.held s o (ground arith)
  ]

  -- Publishing the next command of the stream is not refused, goes on to the next number and keeps
  -- the ring true to the stream, when it was: the sequence numbers are not about to wrap.
  pub publish-HoldsStream :
      (c : Command) (p : Publisher)
      → HoldsStream p
      → c ≡ stream c.seq
      → c.seq ≡ p.next_seq
      → p.next_seq + k_per_packet + 1 < 2 ^ 64
      → (q : Publisher) × (publish c p ≡ some q) × HoldsStream q × (q.next_seq ≡ p.next_seq + 1)
  unfolding publish
  publish-HoldsStream c p h e n w =
      let q : Publisher = record p {
        ring = set p.ring (slot c.seq p) c;
        next_seq = p.next_seq + 1;
      } in
      let l = length-set p.ring (slot c.seq p) c in
      (
        q,
        ground arith,
        record {
          held = λ s a b.
              rw l
                (written c p s h e n (ground (arith, l)) (ground (arith, l)) b (ground (arith, l)));
          sized = omega (arith, l, h.sized);
          small = omega arith;
        },
        refl,
      )

  on_retransmit-AreTrue :
      (first count : ℕ) (p : Publisher)
      → HoldsStream p
      → All (IsTrue stream p.epoch) (on_retransmit first count p).1
  unfolding on_retransmit
  on_retransmit-AreTrue first count p h = elim (Bool-cases (ltb first (oldest p))) [
    | inl e ↦ rw (e, on_retransmit) (inr (inl (λ x. cc)), tt)
    | inr e ↦
        let end = min ((first + count) % 2 ^ 64) p.next_seq in
        rw (e, on_retransmit)
          (resend-AreTrue (end - first) first end p h (ground arith) (ground arith))
  ]

  -- Whatever the primary is asked on its control socket, every datagram that it replies with is
  -- true to the stream, when its ring is.
  pub serve-AreTrue :
      (d : Datagram) (p : Publisher) → HoldsStream p → All (IsTrue stream p.epoch) (serve d p).1
  unfolding serve
  serve-AreTrue d p h = elim (Bool-cases (ltb d.size header_size)) [
    | inl a ↦ rw (a, serve) tt
    | inr a ↦
        elim (Bool-cases
          (not (d.hdr.magic == k_magic) || (not (d.hdr.epoch == p.epoch) || fenced p))) [
            | inl b ↦ rw (a, b, serve) tt
            | inr b ↦ rw (a, b, serve) (by_kind d.hdr.kind)
          ]
  ]
    where
      by_kind :
          (k : Kind)
          → All
              (IsTrue stream p.epoch)
              (elim k as (λ _. Publisher × List Datagram) [
                | Kind.ack ↦ (on_ack d.hdr.first_seq p, [])
                | Kind.retransmit ↦ on_retransmit d.hdr.first_seq d.hdr.count p
                | _ ↦ (p, [])
              ]).1
      by_kind Kind.retransmit = on_retransmit-AreTrue d.hdr.first_seq d.hdr.count p h
      by_kind Kind.commands = tt
      by_kind Kind.heartbeat = tt
      by_kind Kind.end_of_stream = tt
      by_kind Kind.ack = tt
      by_kind Kind.unavailable = tt
      by_kind Kind.other = tt

  resend_done : (fuel s end : ℕ) (p : Publisher) → end ≤ s → resend fuel s end p ≡ []
  unfolding resend
  resend_done zero s end p h = refl
  resend_done (suc fuel) s end p h = let e : ltb s end ≡ false = ground arith in rw (e, resend) refl

  -- The datagrams of a retransmission hold all that was asked for and is there: the commands of the
  -- stream from the first number up to the end, in order. The ring is true to the stream and still
  -- holds the first number, and the fuel is at least the number of commands.
  pub resend-bodies :
      (fuel s end : ℕ) (p : Publisher)
      → HoldsStream p
      → oldest p ≤ s
      → end ≤ p.next_seq
      → end - s ≤ fuel
      → IsSlice stream s (bodies (resend fuel s end p))
        × (length (bodies (resend fuel s end p)) ≡ end - s)
  unfolding resend bodies send_data
  resend-bodies zero s end p h a c f = (tt, omega arith)
  resend-bodies (suc fuel) s end p h a c f = elim (Bool-cases (ltb s end)) [
    | inr e ↦ rw (e, resend) (tt, ground arith)
    | inl e ↦
        let n = min k_per_packet (end - s) in
        let w : (s + k_per_packet) % 2 ^ 64 ≡ s + k_per_packet = ground (arith, h.small) in
        let (x, y) = copy_out-IsSlice p s n h a (ground arith) in
        elim (Bool-cases (leb (s + k_per_packet) end)) [
          | inl g ↦
              let m : s + n ≡ s + k_per_packet = ground arith in
              let r =
                resend-bodies fuel (s + k_per_packet) end p h (omega arith) c (ground arith) in
              rw (e, resend, w)
                (
                  append-IsSlice stream s (copy_out s n p)
                      (bodies (resend fuel (s + k_per_packet) end p)) x (rw (y, m) r.0),
                  ground (
                    arith,
                    length-append (copy_out s n p) (bodies (resend fuel (s + k_per_packet) end p)),
                    y,
                    r.1,
                  ),
                )
          | inr g ↦
              let m : n ≡ end - s = ground arith in
              rw (e, resend, w, resend_done fuel (s + k_per_packet) end p (ground arith))
                (
                  append-IsSlice stream s (copy_out s n p) [] x tt,
                  omega (arith, length-append (copy_out s n p) [], y, m),
                )
        ]
  ]

  pub new-HoldsStream :
      (ring_log2 next_seq epoch : ℕ)
      → 0 < 2 ^ ring_log2
      → next_seq + k_per_packet < 2 ^ 64
      → HoldsStream (new ring_log2 next_seq epoch)
  unfolding new
  new-HoldsStream ring_log2 next_seq epoch g h = record {
    held = λ s a b. absurd (ground arith);
    sized = omega (arith, length-replicate (2 ^ ring_log2) no_command);
    small = h;
  }

-- `flush` ends with nothing pending and the same next number, when it is given an outcome of the
-- fault injection for each pending command: the numbers are not about to wrap.
pub flush_ends :
    (now : ℕ) (drops : List Bool) (p : Publisher)
    → p.pending_first ≤ p.next_seq
    → p.next_seq ≤ p.pending_first + length drops
    → p.next_seq + k_per_packet < 2 ^ 64
    → ((flush now drops p).0.pending_first ≡ p.next_seq)
      × ((flush now drops p).0.next_seq ≡ p.next_seq)
unfolding flush flush_round
flush_ends now [] p a b c = (omega arith, refl)
flush_ends now (drop ∷ drops) p a b c = elim (Bool-cases (ltb p.pending_first p.next_seq)) [
  | inr e ↦ rw (e, flush) (ground arith, refl)
  | inl e ↦
      rw (e, flush)
        (flush_ends now drops (flush_round now drop p).0 (ground arith) (ground arith) c)
]
