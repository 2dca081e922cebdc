-- ===== src/Geri/Packet/Examples.antt =====
-- A version 2 datagram parsed, and the parser's theorems at it.
use grimnir.Base.{◌*◌, ◌≡◌, ◌↔◌, refl, [], ◌∷◌, arith, length, codes, negsuc}
use grimnir.Geri.Packet.Bytes.{from_le, words, to_int16, rstrip_nul, decode_ascii, join_colon}
use grimnir.Geri.Packet.Parse.{
  CsiPacket, packet, parse_error, too_short, unpack_header, assemble, parse_body, parse_packet,
}
use grimnir.Geri.Packet.Accept.{Acceptable, parse_packet-accepts_iff, parse_packet-sizes}
use grimnir.Geri.Packet.Fields.{to_le, zeros, put_words}
use grimnir.Geri.Packet.Layout.{Sent, IsSendable, encode}
use grimnir.Geri.Packet.RoundTrip.{received, parse_packet-encode}

abbrev sent : Sent
sent = record {
  receiver_name = codes "rx_ground";
  transmitter_mac = 0xaa ∷ 0xbb ∷ 0x0c ∷ 1 ∷ 2 ∷ 3 ∷ [];
  rssi = negsuc 41;
  noise_floor = negsuc 94;
  channel = 6;
  bandwidth_mhz = 20;
  antenna_count = 1;
  subcarrier_count = 2;
  timestamp_us = 123456;
  amplitude = 0x3f800000 ∷ 0x40000000 ∷ [];
  phase = 0 ∷ 0xbf800000 ∷ [];
}

program : Unit {0}
unfolding parse_packet parse_body unpack_header assemble from_le words to_int16 rstrip_nul
    decode_ascii join_colon encode to_le zeros put_words
program = tt

sent-IsSendable : IsSendable 32 sent
unfolding rstrip_nul
sent-IsSendable = record {
  name_fits = omega arith;
  name_ascii = omega arith;
  name_ends = refl;
  mac_fits = refl;
  rssi_fits = omega arith;
  noise_fits = omega arith;
  channel_fits = omega arith;
  bandwidth_fits = omega arith;
  antenna_fits = omega arith;
  subcarrier_fits = omega arith;
  timestamp_fits = omega arith;
  amplitude_counted = refl;
  phase_counted = refl;
  amplitude_fits = omega arith;
  phase_fits = omega arith;
}

mac_text : (received sent []).transmitter_mac ≡ codes "aa:bb:0c:01:02:03"
unfolding program
mac_text = refl

parsed_run : parse_packet (encode sent [] 2 32) ≡ packet (received sent [])
unfolding program
parsed_run = refl

empty_run : parse_packet [] ≡ parse_error (too_short 0 44)
unfolding program
empty_run = refl

parse_packet-encode_example :
    parse_packet (encode sent (9 ∷ []) 2 32) ≡ packet (received sent (9 ∷ []))
parse_packet-encode_example = parse_packet-encode sent (9 ∷ []) 2 32 refl sent-IsSendable

parse_packet-accepts_iff_example :
    ((p : CsiPacket) × (parse_packet (encode sent [] 2 32) ≡ packet p))
    ↔ Acceptable (encode sent [] 2 32)
parse_packet-accepts_iff_example = parse_packet-accepts_iff (encode sent [] 2 32)

parse_packet-sizes_example : (length sent.amplitude ≡ 1 * 2) × (length sent.phase ≡ 1 * 2)
unfolding program
parse_packet-sizes_example = parse_packet-sizes (encode sent [] 2 32) (received sent []) refl
