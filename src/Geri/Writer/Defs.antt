-- ===== src/Geri/Writer/Defs.antt =====
-- `CSIUDPProtocol` and `batch_writer` of geri/src/geri/main.py. Times are whole ticks of the event
-- loop's clock, and what the database answers is an argument of each step.
use grimnir.Base.{
  ℕ, ◌+◌, Bool, true, false, not, ◌&&◌, Option, none, some, List, [], ◌∷◌, ◌++◌, ltb, leb, ◌==◌,
  if◌then◌else◌, Str, str_eq, length, lookup, insert, Dict, dict_get, dict_set,
}
use grimnir.Geri.Packet.{CsiPacket, Parsed, packet, parse_error, parse_packet}

pub record Addr : Type 0 where
  pub host : Str
  pub port : ℕ

abbrev pub addr_eq : Addr → Addr → Bool
addr_eq a b = str_eq a.host b.host && (a.port == b.port)

-- The tuple on the queue: (wall_time, addr[0], pkt).
pub record Entry : Type 0 where
  pub wall_time : ℕ
  pub src_ip : Str
  pub pkt : CsiPacket

-- The protocol object, the queue, the acknowledgements sent with their times, the last one first,
-- and the packet counters.
pub record Protocol : Type 0 where
  pub connected : Bool
  pub queue : List Entry
  pub dropped : ℕ
  pub last_ack_sent : List (Addr × ℕ)
  pub acks : List (Addr × ℕ)
  pub packets_received : ℕ
  pub packets_invalid : ℕ

abbrev pub ack_due : Option ℕ → ℕ → ℕ → Bool
ack_due none now interval = true
ack_due (some last_ack) now interval = not (ltb now (last_ack + interval))

unfoldable pub maybe_send_ack : ℕ → ℕ → Addr → Protocol → Protocol
maybe_send_ack interval now addr p =
    if p.connected && ack_due (lookup addr_eq addr p.last_ack_sent) now interval
    then record p {
      acks = (addr, now) ∷ p.acks;
      last_ack_sent = insert addr_eq addr now p.last_ack_sent;
    }
    else p

-- `put_nowait` on a queue of at most `maxsize` entries.
abbrev pub put_nowait : ℕ → Entry → Protocol → Protocol
put_nowait maxsize e p =
    if ltb (length p.queue) maxsize
    then record p { queue = p.queue ++ (e ∷ []) }
    else record p { dropped = p.dropped + 1 }

abbrev pub receive : ℕ → ℕ → ℕ → ℕ → Parsed → Addr → Protocol → Protocol
receive maxsize interval now wall_time (parse_error e) addr p = record p {
  packets_invalid = p.packets_invalid + 1;
}
receive maxsize interval now wall_time (packet pkt) addr p =
    let acked = maybe_send_ack interval now addr p in
    let counted = record acked { packets_received = acked.packets_received + 1 } in
    put_nowait maxsize (record { wall_time = wall_time; src_ip = addr.host; pkt = pkt }) counted

unfoldable pub datagram_received : ℕ → ℕ → ℕ → ℕ → List ℕ → Addr → Protocol → Protocol
datagram_received maxsize interval now wall_time datagram addr p =
    receive maxsize interval now wall_time (parse_packet datagram) addr p

-- A member of the batch: (wall_time, receiver_id, pkt).
pub record BatchRow : Type 0 where
  pub wall_time : ℕ
  pub receiver_id : ℕ
  pub pkt : CsiPacket

-- The variables of `batch_writer`, and what it has written: the rows of the successful
-- `insert_batch` calls and the receivers of the successful `upsert_heartbeat` calls.
pub record Writer : Type 0 where
  pub receiver_cache : List (Str × ℕ)
  pub last_heartbeat : Dict ℕ
  pub batch : List BatchRow
  pub inserted : List BatchRow
  pub heartbeats : List ℕ

abbrev pub empty_writer : Writer
empty_writer = record {
  receiver_cache = [];
  last_heartbeat = [];
  batch = [];
  inserted = [];
  heartbeats = [];
}

-- `insert_batch` and `batch = []` after it; `stored` says whether the call raises.
abbrev pub flush : Bool → Writer → Writer
flush true w = record w { inserted = w.inserted ++ w.batch; batch = [] }
flush false w = record w { batch = [] }

abbrev pub or_zero : Option ℕ → ℕ
or_zero none = 0
or_zero (some t) = t

-- The heartbeat of a receiver, at most one each ten seconds; `beaten` says whether the upsert works.
abbrev pub beat : ℕ → Bool → ℕ → ℕ → Writer → Writer
beat heartbeat_interval beaten now receiver_id w =
    if ltb (or_zero (dict_get receiver_id w.last_heartbeat) + heartbeat_interval) now && beaten
    then record w {
      last_heartbeat = dict_set receiver_id now w.last_heartbeat;
      heartbeats = w.heartbeats ++ (receiver_id ∷ []);
    }
    else w

abbrev pub add_packet : ℕ → Bool → BatchRow → Writer → Writer
add_packet batch_size stored r w =
    let grown = record w { batch = w.batch ++ (r ∷ []) } in
    if leb batch_size (length grown.batch) then flush stored grown else grown

-- What the loop waits for, with what the database does in that turn.
pub data WriterEvent : Type 0 where
  got : (e : Entry) (now : ℕ) (answer : Option ℕ) (beaten stored : Bool) → WriterEvent
  timeout : Bool → WriterEvent

abbrev pub with_receiver : ℕ → ℕ → Entry → ℕ → Bool → Bool → ℕ → Writer → Writer
with_receiver batch_size heartbeat_interval e now beaten stored receiver_id w =
    add_packet batch_size stored
      (record { wall_time = e.wall_time; receiver_id = receiver_id; pkt = e.pkt })
      (beat heartbeat_interval beaten now receiver_id w)

-- The receiver's id from the cache or else from the database, where `none` is an exception.
abbrev pub on_entry : ℕ → ℕ → Entry → ℕ → Option ℕ → Option ℕ → Bool → Bool → Writer → Writer
on_entry batch_size heartbeat_interval e now (some receiver_id) answer beaten stored w =
    with_receiver batch_size heartbeat_interval e now beaten stored receiver_id w
on_entry batch_size heartbeat_interval e now none none beaten stored w = w
on_entry batch_size heartbeat_interval e now none (some receiver_id) beaten stored w =
    with_receiver batch_size heartbeat_interval e now beaten stored receiver_id
      (record w { receiver_cache = insert str_eq e.pkt.receiver_name receiver_id w.receiver_cache })

-- One turn of the loop.
unfoldable pub writer_step : ℕ → ℕ → WriterEvent → Writer → Writer
writer_step batch_size heartbeat_interval (got e now answer beaten stored) w =
    on_entry batch_size heartbeat_interval e now
      (lookup str_eq e.pkt.receiver_name w.receiver_cache) answer beaten stored w
writer_step batch_size heartbeat_interval (timeout stored) w =
    if ltb 0 (length w.batch) then flush stored w else w

unfoldable pub run_writer : ℕ → ℕ → List WriterEvent → Writer → Writer
run_writer batch_size heartbeat_interval [] w = w
run_writer batch_size heartbeat_interval (ev ∷ evs) w =
    run_writer batch_size heartbeat_interval evs (writer_step batch_size heartbeat_interval ev w)

-- Where the cancellation arrives, with what the database did: in `queue.get`, where the last batch is
-- written; while the receiver of an entry is looked up, or its heartbeat written; in an `insert_batch`
-- after an entry, or after a timeout, that the database carried out or not.
pub data Ending : Type 0 where
  at_get : (stored : Bool) → Ending
  at_lookup : (e : Entry) → Ending
  at_heartbeat : (e : Entry) (receiver_id : ℕ) (committed : Bool) → Ending
  at_insert : (e : Entry) (now : ℕ) (answer : Option ℕ) (beaten committed : Bool) → Ending
  at_timeout : (committed : Bool) → Ending

-- Only the `queue.get` has a handler for `CancelledError`: elsewhere the exception ends the coroutine,
-- and its batch is lost.
abbrev pub cancelled : ℕ → ℕ → Ending → Writer → Writer
cancelled batch_size heartbeat_interval (at_get stored) w = flush stored w
cancelled batch_size heartbeat_interval (at_lookup e) w = record w { batch = [] }
cancelled batch_size heartbeat_interval (at_heartbeat e receiver_id committed) w = record w {
  batch = [];
  heartbeats = if committed then w.heartbeats ++ (receiver_id ∷ []) else w.heartbeats;
}
cancelled batch_size heartbeat_interval (at_insert e now answer beaten committed) w =
    writer_step batch_size heartbeat_interval (got e now answer beaten committed) w
cancelled batch_size heartbeat_interval (at_timeout committed) w =
    writer_step batch_size heartbeat_interval (timeout committed) w

-- The loop up to its cancellation.
unfoldable pub batch_writer : ℕ → ℕ → List WriterEvent → Ending → Writer → Writer
batch_writer batch_size heartbeat_interval evs ending w =
    cancelled batch_size heartbeat_interval ending (run_writer batch_size heartbeat_interval evs w)
