-- ===== src/Geri/Packet/Layout.antt =====
-- The wire layout of docs/udp-wire-protocol.md, as a writer, and its header read back.
use grimnir.Base.{
  ℕ, ◌+◌, ◌-◌, ◌*◌, ◌≤◌, ◌<◌, ◌≡◌, List, ◌++◌, arith, length, drop, All, ℤ, length-append,
}
use grimnir.Geri.Packet.Bytes.{from_le, to_int16, rstrip_nul}
use grimnir.Geri.Packet.Parse.{packet_magic, header_size, unpack_header, Header}
use grimnir.Geri.Packet.Fields.{
  to_le, length-to_le, from_le-to_le, take_left, drop_left, zeros, length-zeros, of_int16,
  FitsInt16, to_int16-of_int16, of_int16-lt, put_words, length-put_words, drop-add, drop_six,
}

-- What a receiver sends: the columns of the layout table.
pub record Sent : Type 0 where
  pub receiver_name : List ℕ
  pub transmitter_mac : List ℕ
  pub rssi : ℤ
  pub noise_floor : ℤ
  pub channel : ℕ
  pub bandwidth_mhz : ℕ
  pub antenna_count : ℕ
  pub subcarrier_count : ℕ
  pub timestamp_us : ℕ
  pub amplitude : List ℕ
  pub phase : List ℕ

-- Each column fits its type; the name is ASCII, fits its field and does not end in a NUL.
pub record IsSendable (width : ℕ) (s : Sent) : Type 0 where
  pub name_fits : length s.receiver_name ≤ width
  pub name_ascii : All (λ b. b < 128) s.receiver_name
  pub name_ends : rstrip_nul s.receiver_name ≡ s.receiver_name
  pub mac_fits : length s.transmitter_mac ≡ 6
  pub rssi_fits : FitsInt16 s.rssi
  pub noise_fits : FitsInt16 s.noise_floor
  pub channel_fits : s.channel < 65536
  pub bandwidth_fits : s.bandwidth_mhz < 65536
  pub antenna_fits : s.antenna_count < 65536
  pub subcarrier_fits : s.subcarrier_count < 65536
  pub timestamp_fits : s.timestamp_us < 4294967296
  pub amplitude_counted : length s.amplitude ≡ s.antenna_count * s.subcarrier_count
  pub phase_counted : length s.phase ≡ s.antenna_count * s.subcarrier_count
  pub amplitude_fits : All (λ w. w < 4294967296) s.amplitude
  pub phase_fits : All (λ w. w < 4294967296) s.phase

module _ (s : Sent) (rest : List ℕ) where
  -- The datagram from each field on; `rest` is what trails it.
  abbrev pub values : List ℕ
  values = put_words (s.amplitude ++ s.phase) ++ rest

  abbrev pub from_timestamp : List ℕ
  from_timestamp = to_le 4 s.timestamp_us ++ values

  abbrev pub from_subcarriers : List ℕ
  from_subcarriers = to_le 2 s.subcarrier_count ++ from_timestamp

  abbrev pub from_antennas : List ℕ
  from_antennas = to_le 2 s.antenna_count ++ from_subcarriers

  abbrev pub from_bandwidth : List ℕ
  from_bandwidth = to_le 2 s.bandwidth_mhz ++ from_antennas

  abbrev pub from_channel : List ℕ
  from_channel = to_le 2 s.channel ++ from_bandwidth

  abbrev pub from_noise : List ℕ
  from_noise = to_le 2 (of_int16 s.noise_floor) ++ from_channel

  abbrev pub from_rssi : List ℕ
  from_rssi = to_le 2 (of_int16 s.rssi) ++ from_noise

  abbrev pub from_mac : List ℕ
  from_mac = s.transmitter_mac ++ from_rssi

  unfoldable pub encode : ℕ → ℕ → List ℕ
  encode version width =
      to_le 4 packet_magic
      ++ (to_le 2 version
          ++ ((s.receiver_name ++ zeros (width - length s.receiver_name)) ++ from_mac))

  abbrev pub sent_header : ℕ → ℕ → Header
  sent_header version width = record {
    magic = packet_magic;
    version = version;
    name_raw = s.receiver_name ++ zeros (width - length s.receiver_name);
    mac_bytes = s.transmitter_mac;
    rssi = s.rssi;
    noise_floor = s.noise_floor;
    channel = s.channel;
    bandwidth_mhz = s.bandwidth_mhz;
    antenna_count = s.antenna_count;
    subcarrier_count = s.subcarrier_count;
    timestamp_us = s.timestamp_us;
  }

  length-name :
      (width : ℕ)
      → length s.receiver_name ≤ width
      → length (s.receiver_name ++ zeros (width - length s.receiver_name)) ≡ width
  length-name width h = omega (
    arith,
    length-append s.receiver_name (zeros (width - length s.receiver_name)),
    length-zeros (width - length s.receiver_name),
  )

  header_values :
      (version width : ℕ)
      → version < 65536
      → IsSendable width s
      → ◌≡◌ {A = Header}
          (record {
            magic = from_le (to_le 4 packet_magic);
            version = from_le (to_le 2 version);
            name_raw = s.receiver_name ++ zeros (width - length s.receiver_name);
            mac_bytes = s.transmitter_mac;
            rssi = to_int16 (from_le (to_le 2 (of_int16 s.rssi)));
            noise_floor = to_int16 (from_le (to_le 2 (of_int16 s.noise_floor)));
            channel = from_le (to_le 2 s.channel);
            bandwidth_mhz = from_le (to_le 2 s.bandwidth_mhz);
            antenna_count = from_le (to_le 2 s.antenna_count);
            subcarrier_count = from_le (to_le 2 s.subcarrier_count);
            timestamp_us = from_le (to_le 4 s.timestamp_us);
          })
          (sent_header version width)
  header_values version width small ok = rw (
    from_le-to_le 4 packet_magic (omega arith),
    from_le-to_le 2 version small,
    from_le-to_le 2 (of_int16 s.rssi) (of_int16-lt s.rssi ok.rssi_fits),
    to_int16-of_int16 s.rssi ok.rssi_fits,
    from_le-to_le 2 (of_int16 s.noise_floor) (of_int16-lt s.noise_floor ok.noise_fits),
    to_int16-of_int16 s.noise_floor ok.noise_fits,
    from_le-to_le 2 s.channel ok.channel_fits,
    from_le-to_le 2 s.bandwidth_mhz ok.bandwidth_fits,
    from_le-to_le 2 s.antenna_count ok.antenna_fits,
    from_le-to_le 2 s.subcarrier_count ok.subcarrier_fits,
    from_le-to_le 4 s.timestamp_us ok.timestamp_fits,
  )

  pub unpack_header-encode :
      (version width : ℕ)
      → version < 65536
      → IsSendable width s
      → unpack_header width (encode version width) ≡ sent_header version width
  unfolding unpack_header encode
  unpack_header-encode version width small ok =
      rw
        (
          take_left 4 _ _ (length-to_le 4 packet_magic),
          drop_left 4 _ _ (length-to_le 4 packet_magic),
          take_left 2 _ _ (length-to_le 2 version),
          drop_left 2 _ _ (length-to_le 2 version),
          take_left width _ from_mac (length-name width ok.name_fits),
          drop_left width _ from_mac (length-name width ok.name_fits),
          take_left 6 _ from_rssi ok.mac_fits,
          drop_left 6 _ from_rssi ok.mac_fits,
          take_left 2 _ from_noise (length-to_le 2 (of_int16 s.rssi)),
          drop_left 2 _ from_noise (length-to_le 2 (of_int16 s.rssi)),
          take_left 2 _ from_channel (length-to_le 2 (of_int16 s.noise_floor)),
          drop_left 2 _ from_channel (length-to_le 2 (of_int16 s.noise_floor)),
          take_left 2 _ from_bandwidth (length-to_le 2 s.channel),
          drop_left 2 _ from_bandwidth (length-to_le 2 s.channel),
          take_left 2 _ from_antennas (length-to_le 2 s.bandwidth_mhz),
          drop_left 2 _ from_antennas (length-to_le 2 s.bandwidth_mhz),
          take_left 2 _ from_subcarriers (length-to_le 2 s.antenna_count),
          drop_left 2 _ from_subcarriers (length-to_le 2 s.antenna_count),
          take_left 2 _ from_timestamp (length-to_le 2 s.subcarrier_count),
          drop_left 2 _ from_timestamp (length-to_le 2 s.subcarrier_count),
          take_left 4 _ values (length-to_le 4 s.timestamp_us),
        )
        (header_values version width small ok)

  pub drop_header :
      (version width : ℕ)
      → IsSendable width s
      → drop (header_size width) (encode version width) ≡ values
  unfolding encode
  drop_header version width ok = rw (
    drop-add (6 + width + 6 + 2 + 2 + 2 + 2 + 2 + 2) 4,
    drop-add (6 + width + 6 + 2 + 2 + 2 + 2 + 2) 2,
    drop-add (6 + width + 6 + 2 + 2 + 2 + 2) 2,
    drop-add (6 + width + 6 + 2 + 2 + 2) 2,
    drop-add (6 + width + 6 + 2 + 2) 2,
    drop-add (6 + width + 6 + 2) 2,
    drop-add (6 + width + 6) 2,
    drop-add (6 + width) 6,
    drop-add 6 width,
    drop_six packet_magic version _,
    drop_left width _ from_mac (length-name width ok.name_fits),
    drop_left 6 _ from_rssi ok.mac_fits,
    drop_left 2 _ from_noise (length-to_le 2 (of_int16 s.rssi)),
    drop_left 2 _ from_channel (length-to_le 2 (of_int16 s.noise_floor)),
    drop_left 2 _ from_bandwidth (length-to_le 2 s.channel),
    drop_left 2 _ from_antennas (length-to_le 2 s.bandwidth_mhz),
    drop_left 2 _ from_subcarriers (length-to_le 2 s.antenna_count),
    drop_left 2 _ from_timestamp (length-to_le 2 s.subcarrier_count),
    drop_left 4 _ values (length-to_le 4 s.timestamp_us),
  )

  pub length-encode :
      (version width : ℕ)
      → IsSendable width s
      → length (encode version width)
        ≡ header_size width + s.antenna_count * s.subcarrier_count * 8 + length rest
  unfolding encode
  length-encode version width ok =
      omega
        (arith, length-append {0}, length-to_le, length-put_words, length-name width ok.name_fits)
