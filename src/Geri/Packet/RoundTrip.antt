-- ===== src/Geri/Packet/RoundTrip.antt =====
-- The parser reads back what the wire layout of docs/udp-wire-protocol.md lays out.
use grimnir.Base.{
  ℕ, ◌-◌, ◌*◌, ◌≤◌, ◌<◌, ◌≡◌, ap, ◌∙◌, some, List, ◌++◌, arith, length, take, drop, All, map,
  length-append, All-append,
}
use grimnir.Geri.Packet.Bytes.{from_le, words, join_colon, hex_byte}
use grimnir.Geri.Packet.Parse.{
  packet_magic, header_size, name_width, CsiPacket, packet, unpack_header, assemble, parse_packet,
}
use grimnir.Geri.Packet.Accept.{
  parse_packet_opens, parse_body-accepts, name_width-ge, body_packet, Room,
}
use grimnir.Geri.Packet.Fields.{
  take_left, drop_left, rstrip_nul-append-zeros, decode_ascii_id, words-put_words,
}
use grimnir.Geri.Packet.Layout.{
  Sent, IsSendable, encode, sent_header, values, unpack_header-encode, drop_header, length-encode,
}

All-append_words :
    (xs ys : List ℕ)
    → All (λ w. w < 4294967296) xs
    → All (λ w. w < 4294967296) ys
    → All (λ w. w < 4294967296) (xs ++ ys)
All-append_words xs ys = All-append (λ w. w < 4294967296) xs ys

name_width-lt : (version width : ℕ) → name_width version ≡ some width → version < 65536
name_width-lt version width h = ground arith

module _ (s : Sent) (rest : List ℕ) where
  -- What the parser makes of it.
  abbrev pub received : CsiPacket
  received = record {
    receiver_name = s.receiver_name;
    transmitter_mac = join_colon (map hex_byte s.transmitter_mac);
    rssi = s.rssi;
    noise_floor = s.noise_floor;
    channel = s.channel;
    bandwidth_mhz = s.bandwidth_mhz;
    antenna_count = s.antenna_count;
    subcarrier_count = s.subcarrier_count;
    timestamp_us = s.timestamp_us;
    amplitude = s.amplitude;
    phase = s.phase;
  }

  module _ (version width : ℕ) (known : name_width version ≡ some width)
      (ok : IsSendable width s) where
    read_header :
        unpack_header width (encode s rest version width) ≡ sent_header s rest version width
    read_header = unpack_header-encode s rest version width (name_width-lt version width known) ok

    read_magic : from_le (take 4 (encode s rest version width)) ≡ packet_magic
    unfolding unpack_header
    read_magic = ap (λ h. h.magic) read_header

    read_version : name_width (from_le (take 2 (drop 4 (encode s rest version width)))) ≡ some width
    unfolding unpack_header
    read_version = ap (λ h. name_width h.version) read_header ∙ known

    read-Room : Room width (encode s rest version width)
    read-Room = rw (read_header, length-encode s rest version width ok) (omega arith)

    read_words :
        words (s.antenna_count * s.subcarrier_count * 2) (values s rest) ≡ s.amplitude ++ s.phase
    read_words =
        let count : length (s.amplitude ++ s.phase) ≡ s.antenna_count * s.subcarrier_count * 2 =
          omega
            (arith, length-append s.amplitude s.phase, ok.amplitude_counted, ok.phase_counted) in
        rw (← count) (
          words-put_words (s.amplitude ++ s.phase) rest
            (All-append_words s.amplitude s.phase ok.amplitude_fits ok.phase_fits))

    assembled : assemble (sent_header s rest version width) (s.amplitude ++ s.phase) ≡ received
    unfolding assemble
    assembled = rw (
      rstrip_nul-append-zeros s.receiver_name (width - length s.receiver_name),
      ok.name_ends,
      decode_ascii_id s.receiver_name ok.name_ascii,
      take_left _ s.amplitude s.phase ok.amplitude_counted,
      drop_left _ s.amplitude s.phase ok.amplitude_counted,
    )

    read_body : body_packet width (encode s rest version width) ≡ received
    read_body = rw (read_header, drop_header s rest version width ok, read_words) assembled

  -- A datagram laid out as version 1 or 2 is parsed into the packet that was sent: each number, the
  -- name without its padding, the address in hexadecimal and both float arrays; bytes behind the
  -- arrays are ignored.
  pub parse_packet-encode :
      (version width : ℕ)
      → name_width version ≡ some width
      → IsSendable width s
      → parse_packet (encode s rest version width) ≡ packet received
  parse_packet-encode version width known ok =
      let bytes = encode s rest version width in
      let long : header_size 16 ≤ length bytes =
        omega (arith, name_width-ge version width known, length-encode s rest version width ok) in
      parse_packet_opens bytes width long (read_magic version width known ok)
        (read_version version width known ok)
      ∙ parse_body-accepts width bytes (read-Room version width known ok)
      ∙ ap packet (read_body version width known ok)
