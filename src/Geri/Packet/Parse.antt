-- ===== src/Geri/Packet/Parse.antt =====
-- `parse_packet` of geri/src/geri/parser.py.
use grimnir.Base.{
  ℕ, ◌+◌, ◌*◌, not, Option, none, some, List, map, ltb, ◌==◌, if◌then◌else◌, Str, length, take,
  drop, ℤ,
}
use grimnir.Geri.Packet.Bytes.{
  from_le, to_int16, words, rstrip_nul, decode_ascii, hex_byte, join_colon,
}

abbrev pub packet_magic : ℕ
packet_magic = 0x43534921

-- struct.calcsize("<IH{n}s6shhHHHHI"): only the width of the name differs between versions.
abbrev pub header_size : ℕ → ℕ
header_size name_width = 4 + 2 + name_width + 6 + 2 + 2 + 2 + 2 + 2 + 2 + 4

-- HEADER_BY_VERSION, as the width of the name field.
abbrev pub name_width : ℕ → Option ℕ
name_width version = if version == 1 then some 16 else if version == 2 then some 32 else none

pub record CsiPacket : Type 0 where
  pub receiver_name : Str
  pub transmitter_mac : Str
  pub rssi : ℤ
  pub noise_floor : ℤ
  pub channel : ℕ
  pub bandwidth_mhz : ℕ
  pub antenna_count : ℕ
  pub subcarrier_count : ℕ
  pub timestamp_us : ℕ
  pub amplitude : List ℕ
  pub phase : List ℕ

-- The numbers are those of the messages.
pub data ParseError : Type 0 where
  too_short : ℕ → ℕ → ParseError
  bad_magic : ℕ → ParseError
  unknown_version : ℕ → ParseError
  too_few_values : ℕ → ℕ → ℕ → ParseError

pub data Parsed : Type 0 where
  packet : CsiPacket → Parsed
  parse_error : ParseError → Parsed

-- struct.unpack_from(header_format, data, 0), field after field.
pub record Header : Type 0 where
  pub magic : ℕ
  pub version : ℕ
  pub name_raw : List ℕ
  pub mac_bytes : List ℕ
  pub rssi : ℤ
  pub noise_floor : ℤ
  pub channel : ℕ
  pub bandwidth_mhz : ℕ
  pub antenna_count : ℕ
  pub subcarrier_count : ℕ
  pub timestamp_us : ℕ

unfoldable pub unpack_header : ℕ → List ℕ → Header
unpack_header width data0 =
    let data1 = drop 4 data0 in
    let data2 = drop 2 data1 in
    let data3 = drop width data2 in
    let data4 = drop 6 data3 in
    let data5 = drop 2 data4 in
    let data6 = drop 2 data5 in
    let data7 = drop 2 data6 in
    let data8 = drop 2 data7 in
    let data9 = drop 2 data8 in
    let data10 = drop 2 data9 in
    record {
      magic = from_le (take 4 data0);
      version = from_le (take 2 data1);
      name_raw = take width data2;
      mac_bytes = take 6 data3;
      rssi = to_int16 (from_le (take 2 data4));
      noise_floor = to_int16 (from_le (take 2 data5));
      channel = from_le (take 2 data6);
      bandwidth_mhz = from_le (take 2 data7);
      antenna_count = from_le (take 2 data8);
      subcarrier_count = from_le (take 2 data9);
      timestamp_us = from_le (take 4 data10);
    }

-- The packet of a header and of the floats behind it.
unfoldable pub assemble : Header → List ℕ → CsiPacket
assemble h flat =
    let n_values = h.antenna_count * h.subcarrier_count in
    record {
      receiver_name = decode_ascii (rstrip_nul h.name_raw);
      transmitter_mac = join_colon (map hex_byte h.mac_bytes);
      rssi = h.rssi;
      noise_floor = h.noise_floor;
      channel = h.channel;
      bandwidth_mhz = h.bandwidth_mhz;
      antenna_count = h.antenna_count;
      subcarrier_count = h.subcarrier_count;
      timestamp_us = h.timestamp_us;
      amplitude = take n_values flat;
      phase = drop n_values flat;
    }

-- The part of `parse_packet` behind the version lookup.
unfoldable pub parse_body : ℕ → List ℕ → Parsed
parse_body width data0 =
    let h = unpack_header width data0 in
    let n_values = h.antenna_count * h.subcarrier_count in
    let expected_size = header_size width + n_values * 4 * 2 in
    if ltb (length data0) (header_size width)
    then parse_error (too_short (length data0) (header_size width))
    else if ltb (length data0) expected_size
    then parse_error (too_few_values n_values (length data0) expected_size)
    else packet (assemble h (words (n_values * 2) (drop (header_size width) data0)))

unfoldable pub parse_packet : List ℕ → Parsed
parse_packet data0 =
    let magic = from_le (take 4 data0) in
    let version = from_le (take 2 (drop 4 data0)) in
    if ltb (length data0) (header_size 16)
    then parse_error (too_short (length data0) (header_size 16))
    else if not (magic == packet_magic)
    then parse_error (bad_magic magic)
    else elim (name_width version) [
      | none ↦ parse_error (unknown_version version)
      | some width ↦ parse_body width data0
    ]
