-- ===== src/Geri/Writer/Examples.antt =====
-- A queue of one place and a batch of two rows.
use grimnir.Base.{
  ℕ, negsuc, ◌≡◌, refl, true, false, some, List, [], ◌∷◌, ◌++◌, Str, str_eq, codes, arith,
}
use grimnir.Geri.Packet.{CsiPacket, packet, from_le, parse_packet, parse_body, unpack_header}
use grimnir.Geri.Writer.Defs.{
  Addr, Entry, Protocol, maybe_send_ack, receive, datagram_received, empty_writer, WriterEvent, got,
  timeout, writer_step, run_writer, Ending, at_get, at_insert, batch_writer,
}
use grimnir.Geri.Writer.Conserve.{stamp, rows_of}
use grimnir.Geri.Writer.Cancelled.{in_hand, AllBut, batch_writer-Conserve}
use grimnir.Geri.Writer.Receive.{Arrival, run_arrivals, Accounted, run_arrivals-Accounted}
use grimnir.Geri.Writer.Acks.{AcksSound, run_arrivals-AcksSound}

abbrev pkt : CsiPacket
pkt = record {
  receiver_name = codes "rx";
  transmitter_mac = codes "aa:bb:cc:dd:ee:ff";
  rssi = negsuc 40;
  noise_floor = negsuc 90;
  channel = 6;
  bandwidth_mhz = 20;
  antenna_count = 0;
  subcarrier_count = 0;
  timestamp_us = 1;
  amplitude = [];
  phase = [];
}

abbrev peer : Addr
peer = record { host = codes "10.0.0.7"; port = 5005 }

abbrev listening : Protocol
listening = record {
  connected = true;
  queue = [];
  dropped = 0;
  last_ack_sent = [];
  acks = [];
  packets_received = 0;
  packets_invalid = 0;
}

abbrev e : ℕ → Entry
e t = record { wall_time = t; src_ip = codes "10.0.0.7"; pkt = pkt }

program : Unit {0}
unfolding from_le parse_packet parse_body unpack_header maybe_send_ack datagram_received writer_step
    run_writer batch_writer str_eq
program = tt

-- The second packet comes too early for an acknowledgement and finds the queue full.
busy :
    receive 1 5 7 2 (packet pkt) peer (receive 1 5 4 1 (packet pkt) peer listening)
    ≡ record listening {
      queue = e 1 ∷ [];
      dropped = 1;
      last_ack_sent = (peer, 4) ∷ [];
      acks = (peer, 4) ∷ [];
      packets_received = 2;
    }
unfolding program
busy = refl

-- A version 1 datagram without floats.
abbrev datagram : List ℕ
datagram =
    0x21 ∷ 0x49 ∷ 0x53 ∷ 0x43 ∷ 1 ∷ 0 ∷ 0x72 ∷ 0x78 ∷ 0 ∷ 0 ∷ 0 ∷ 0 ∷ 0 ∷ 0 ∷ 0 ∷ 0 ∷ 0 ∷ 0 ∷ 0 ∷ 0
    ∷ 0 ∷ 0 ∷ 0xaa ∷ 0xbb ∷ 0xcc ∷ 0xdd ∷ 0xee ∷ 0xff ∷ 0xd7 ∷ 0xff ∷ 0xa5 ∷ 0xff ∷ 6 ∷ 0 ∷ 20 ∷ 0
    ∷ 0 ∷ 0 ∷ 0 ∷ 0 ∷ 1 ∷ 0 ∷ 0 ∷ 0 ∷ []

abbrev arrival : ℕ → List ℕ → Arrival
arrival now bytes = record { now = now; wall_time = now; datagram = bytes; addr = peer }

-- The second datagram comes too early for an acknowledgement and finds the queue full, the third is
-- no packet, and the last is acknowledged again.
abbrev traffic : List Arrival
traffic = arrival 4 datagram ∷ arrival 7 datagram ∷ arrival 8 (1 ∷ 2 ∷ []) ∷ arrival 9 datagram ∷ []

traffic_acks : (run_arrivals 1 5 traffic listening).acks ≡ (peer, 9) ∷ (peer, 4) ∷ []
unfolding program
traffic_acks = refl

traffic_drops : (run_arrivals 1 5 traffic listening).dropped ≡ 2
unfolding program
traffic_drops = refl

run_arrivals-Accounted_example : Accounted 1 5 (run_arrivals 1 5 traffic listening)
run_arrivals-Accounted_example = run_arrivals-Accounted 1 5 traffic listening (refl, omega arith)

listening-AcksSound : AcksSound 5 listening
listening-AcksSound = record { last = λ a. refl; spaced = tt }

run_arrivals-AcksSound_example : AcksSound 5 (run_arrivals 1 5 traffic listening)
run_arrivals-AcksSound_example = run_arrivals-AcksSound 5 1 traffic listening listening-AcksSound

abbrev events : List WriterEvent
events =
    got (e 1) 20 (some 3) true true
    ∷ got (e 2) 21 (some 3) true true
    ∷ timeout true
    ∷ got (e 3) 22 (some 3) false true
    ∷ []

abbrev ids : Str → ℕ
ids name = 3

-- A third packet fills the batch, and its insert is cancelled before the database carries it out.
abbrev cut_off : Ending
cut_off = at_insert (e 4) 23 (some 3) true false

batch_writer-Conserve_example :
    ((batch_writer 2 10 events (at_get true) empty_writer).inserted ≡ rows_of ids events)
    × AllBut 2 10 ids
        (rows_of ids events ++ in_hand ids cut_off)
        (batch_writer 2 10 events cut_off empty_writer).inserted
batch_writer-Conserve_example =
    batch_writer-Conserve 2 10 ids events cut_off (omega arith)
      ((refl, refl), ((refl, refl), (refl, ((refl, refl), tt)))) refl

one_heartbeat : (batch_writer 2 10 events (at_get true) empty_writer).heartbeats ≡ 3 ∷ []
unfolding program
one_heartbeat = refl

-- Two of the four packets are lost, although no insert that runs to its end fails.
two_lost :
    (batch_writer 2 10 events cut_off empty_writer).inserted
      ++ (stamp ids (e 3) ∷ stamp ids (e 4) ∷ [])
    ≡ rows_of ids events ++ in_hand ids cut_off
unfolding program
two_lost = refl
