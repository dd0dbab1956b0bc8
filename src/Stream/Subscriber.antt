-- ===== src/Stream/Subscriber.antt =====
-- include/exsim/seqstream.hpp: `Subscriber`, the replica's end of the stream. An operation that
-- calls `on_command` gives the commands of its calls, in order. The clock is an argument.
pub mod Runs
pub mod Delivery
pub mod Tests
use exchange_sim.Base.{
  ℕ, ◌+◌, ◌-◌, ◌*◌, ◌%◌, ◌^◌, ltb, leb, ◌==◌, if◌then◌else◌, Bool, true, false, not, ◌&&◌, ◌||◌,
  max, min, Option, none, some, List, [], ◌∷◌, ◌++◌, length, take, drop,
}
use exchange_sim.Domain.{Command}
use exchange_sim.Stream.{Kind, Header, Datagram, k_magic, header, header_size, command_size}

abbrev pub Stash : Type 0
Stash = List (ℕ × List Command)

pub record Stats : Type 0 where
  pub packets : ℕ
  pub duplicates : ℕ
  pub gaps : ℕ
  pub requests : ℕ
  pub stashed_max : ℕ
  pub stale : ℕ

-- The members but the sockets. `stash` stands by sequence number, as its map orders it.
pub record Subscriber : Type 0 where
  pub min_epoch : ℕ
  pub epoch : ℕ
  pub superseded_by : ℕ
  pub expected : ℕ
  pub known_next : ℕ
  pub end_seq : ℕ
  pub requested_from : ℕ
  pub requested_at : ℕ
  pub last_heard : ℕ
  pub ended : Bool
  pub unavailable : Bool
  pub stash : Stash
  pub stats : Stats

unfoldable pub new : ℕ → ℕ → Subscriber
new first_seq min_epoch = record {
  min_epoch = min_epoch;
  epoch = 0;
  superseded_by = 0;
  expected = first_seq;
  known_next = 0;
  end_seq = 0;
  requested_from = 0;
  requested_at = 0;
  last_heard = 0;
  ended = false;
  unavailable = false;
  stash = [];
  stats = record {
    packets = 0;
    duplicates = 0;
    gaps = 0;
    requests = 0;
    stashed_max = 0;
    stale = 0;
  };
}

unfoldable pub has_ended : Subscriber → Bool
has_ended s = s.ended && leb s.end_seq s.expected

unfoldable pub superseded : Subscriber → Bool
superseded s = not (s.superseded_by == 0)

-- A counter of the statistics goes up by one.
abbrev pub bump : ℕ → ℕ
bump n = (n + 1) % 2 ^ 64

-- Where a run of commands ends.
abbrev pub end_of : ℕ → List Command → ℕ
end_of first cmds = (first + length cmds) % 2 ^ 64

unfoldable pub deliver : ℕ → List Command → Subscriber → Subscriber × List Command
deliver first cmds s = (
  record s { expected = end_of first cmds; known_next = max s.known_next (end_of first cmds) },
  drop (s.expected - first) cmds,
)

-- A stashed run that is reached: delivered unless all of it was.
unfoldable pub deliver_new : ℕ → List Command → Subscriber → Subscriber × List Command
deliver_new first cmds s =
    if ltb s.expected (end_of first cmds) then deliver first cmds s else (s, [])

-- The loop over the stash.
unfoldable pub unstash : Stash → Subscriber → Subscriber × List Command
unstash [] s = (record s { stash = [] }, [])
unstash ((first, cmds) ∷ st) s = elim (leb first s.expected) [
  | false ↦ (record s { stash = (first, cmds) ∷ st }, [])
  | true ↦ let r = deliver_new first cmds s in let q = unstash st r.0 in (q.0, r.1 ++ q.1)
]

-- `std::map::emplace`: a key that is there stays as it is.
unfoldable pub emplace : ℕ → List Command → Stash → Stash
emplace first cmds [] = (first, cmds) ∷ []
emplace first cmds ((k, v) ∷ st) =
    let rest = emplace first cmds st in
    if ltb first k
    then (first, cmds) ∷ (k, v) ∷ st
    else if first == k
    then (k, v) ∷ st
    else (k, v) ∷ rest

unfoldable pub stash_early : ℕ → List Command → Subscriber → Subscriber
stash_early first cmds s =
    let st = emplace first cmds s.stash in
    let first_gap = ltb (length s.stash) (length st) && length st == 1 in
    record s {
      stash = st;
      stats = record (s.stats) {
        gaps = if first_gap then bump s.stats.gaps else s.stats.gaps;
        stashed_max = max s.stats.stashed_max (length st);
      };
    }

-- The case `Data` once the size is right.
unfoldable pub take_commands : ℕ → List Command → Subscriber → Subscriber × List Command
take_commands first cmds s =
    if ltb s.expected first
    then (stash_early first cmds s, [])
    else let r = deliver first cmds s in let q = unstash s.stash r.0 in (q.0, r.1 ++ q.1)

unfoldable pub on_data : Datagram → Subscriber → Subscriber × List Command
on_data d s =
    let h = d.hdr in
    if not (d.size == header_size + h.count * command_size)
    then (s, [])
    else let t = record s { stats = record (s.stats) { packets = bump s.stats.packets } } in
      if leb ((h.first_seq + h.count) % 2 ^ 64) s.expected
      then (record t { stats = record (t.stats) { duplicates = bump t.stats.duplicates } }, [])
      else take_commands h.first_seq (take h.count d.body) t

-- The switch on the kind.
unfoldable pub on_kind : Kind → Datagram → Subscriber → Subscriber × List Command
on_kind Kind.commands d s = on_data d s
on_kind Kind.heartbeat d s = (record s { known_next = max s.known_next d.hdr.first_seq }, [])
on_kind Kind.end_of_stream d s = (
  record s {
    ended = true;
    end_seq = d.hdr.first_seq;
    known_next = max s.known_next d.hdr.first_seq;
  },
  [],
)
on_kind Kind.unavailable d s = (record s { unavailable = true }, [])
on_kind _ d s = (s, [])

abbrev pub is_request : Kind → Bool
is_request Kind.ack = true
is_request Kind.retransmit = true
is_request _ = false

abbrev pub is_stale : ℕ → Subscriber → Bool
is_stale epoch s = ltb epoch s.min_epoch || (not (s.epoch == 0) && ltb epoch s.epoch)

-- The subscriber locks on to the first primary that it hears.
abbrev pub lock : ℕ → Subscriber → Subscriber
lock epoch s = record s { epoch = if s.epoch == 0 then epoch else s.epoch }

-- One round of the loop of `drain`.
unfoldable pub receive : ℕ → Datagram → Subscriber → Subscriber × List Command
receive now d s =
    if ltb d.size header_size
    then (s, [])
    else if not (d.hdr.magic == k_magic) || is_request d.hdr.kind
    then (s, [])
    else if is_stale d.hdr.epoch s
    then (record s { stats = record (s.stats) { stale = bump s.stats.stale } }, [])
    else let t = lock d.hdr.epoch s in
      if ltb t.epoch d.hdr.epoch
      then (record t { superseded_by = max t.superseded_by d.hdr.epoch }, [])
      else on_kind d.hdr.kind d (record t { last_heard = now })

-- The loop of `drain`, over what the sockets give, each with the time of its arrival.
unfoldable pub drain : List (ℕ × Datagram) → Subscriber → Subscriber × List Command
drain [] s = (s, [])
drain ((now, d) ∷ ds) s = let r = receive now d s in let q = drain ds r.0 in (q.0, r.1 ++ q.1)

unfoldable pub ack : ℕ → Subscriber → Option Header
ack through s = if s.epoch == 0 then none else some (header Kind.ack s.epoch through 0)

abbrev pub gap_end : Subscriber → ℕ
gap_end s = elim s.stash [ [] ↦ s.known_next | (first, cmds) ∷ _ ↦ first ]

-- The request that is sent, if any. The conversion of the count to 16 bits loses nothing.
unfoldable pub request_gap : ℕ → Subscriber → Subscriber × Option Header
request_gap now s =
    if leb (gap_end s) s.expected || s.epoch == 0
    then (s, none)
    else if s.requested_from == s.expected
        && ltb ((now + 2 ^ 64 - s.requested_at) % 2 ^ 64) 20000000
    then (s, none)
    else (
      record s {
        stats = record (s.stats) { requests = bump s.stats.requests };
        requested_from = s.expected;
        requested_at = now;
      },
      some (header Kind.retransmit s.epoch s.expected (min (gap_end s - s.expected) 4096)),
    )
