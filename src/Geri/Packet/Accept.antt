-- ===== src/Geri/Packet/Accept.antt =====
-- Which datagrams the parser accepts, and the sizes of what it returns.
use grimnir.Base.{
  ℕ, zero, suc, ◌+◌, ◌*◌, ◌≤◌, ◌≡◌, ◌↔◌, ◌⊎◌, ◌==◌, inl, inr, ap, subst, sym, ◌∙◌, Option-cases,
  Bool-cases, refl, some, List, arith, length, take, drop, length-take, length-drop,
}
use grimnir.Geri.Packet.Bytes.{from_le, words}
use grimnir.Geri.Packet.Fields.{drop-add}
use grimnir.Geri.Packet.Parse.{
  packet_magic, header_size, name_width, CsiPacket, packet, unpack_header, Header, assemble,
  parse_body, parse_packet,
}

-- The rules of docs/udp-wire-protocol.md, "Validation Rules", with the offsets and sizes of that
-- document's tables: the magic, and the layout of either version with its counts and its floats.
pub record Acceptable (bytes : List ℕ) : Type 0 where
  pub magic : from_le (take 4 bytes) ≡ 0x43534921
  pub layout :
      ((from_le (take 2 (drop 4 bytes)) ≡ 1)
        × (44 + from_le (take 2 (drop 36 bytes)) * from_le (take 2 (drop 38 bytes)) * 8
            ≤ length bytes))
      ⊎ ((from_le (take 2 (drop 4 bytes)) ≡ 2)
          × (60 + from_le (take 2 (drop 52 bytes)) * from_le (take 2 (drop 54 bytes)) * 8
              ≤ length bytes))

pub length-words : (n : ℕ) (bytes : List ℕ) → length (words n bytes) ≡ n
unfolding words
length-words zero bytes = refl
length-words (suc n) bytes = omega (arith, length-words n (drop 4 bytes))

pub name_width-ge : (version width : ℕ) → name_width version ≡ some width → 16 ≤ width
name_width-ge version width h = ground arith

-- The packet that the body of the parser returns.
abbrev pub body_packet : ℕ → List ℕ → CsiPacket
body_packet width bytes =
    let h = unpack_header width bytes in
    assemble h (words (h.antenna_count * h.subcarrier_count * 2) (drop (header_size width) bytes))

abbrev pub Room : ℕ → List ℕ → Type 0
Room width bytes =
    let h = unpack_header width bytes in
    header_size width + h.antenna_count * h.subcarrier_count * 8 ≤ length bytes

pub parse_body-accepts :
    (width : ℕ) (bytes : List ℕ)
    → Room width bytes
    → parse_body width bytes ≡ packet (body_packet width bytes)
unfolding parse_body
parse_body-accepts width bytes h = ground arith

parse_body-Room :
    (width : ℕ) (bytes : List ℕ) (p : CsiPacket)
    → parse_body width bytes ≡ packet p
    → Room width bytes
unfolding parse_body
parse_body-Room width bytes p e = ground arith

-- The checks before the body.
pub parse_packet_opens :
    (bytes : List ℕ) (width : ℕ)
    → header_size 16 ≤ length bytes
    → from_le (take 4 bytes) ≡ packet_magic
    → name_width (from_le (take 2 (drop 4 bytes))) ≡ some width
    → parse_packet bytes ≡ parse_body width bytes
unfolding parse_packet
parse_packet_opens bytes width h e v = ground arith

parse_packet_opened :
    (bytes : List ℕ) (p : CsiPacket)
    → parse_packet bytes ≡ packet p
    → (width : ℕ) × (from_le (take 4 bytes) ≡ packet_magic)
      × (name_width (from_le (take 2 (drop 4 bytes))) ≡ some width)
      × (parse_body width bytes ≡ packet p)
unfolding parse_packet
parse_packet_opened bytes p e = elim (Option-cases (name_width (from_le (take 2 (drop 4 bytes))))) [
  | inl n ↦ absurd (ground arith)
  | inr (width, v) ↦ (width, ground arith, v, ground arith)
]

name_width-cases :
    (version width : ℕ)
    → name_width version ≡ some width
    → ((version ≡ 1) × (width ≡ 16)) ⊎ ((version ≡ 2) × (width ≡ 32))
name_width-cases version width h = elim (Bool-cases (version == 1)) [
  | inl t ↦ inl (ground arith)
  | inr f ↦ elim (Bool-cases (version == 2)) [
    | inl t ↦ inr (ground arith)
    | inr g ↦ absurd (ground arith)
  ]
]

-- The counts stand 20 and 22 bytes behind the version's end and the name.
counts_at :
    (width : ℕ) (bytes : List ℕ)
    → ((unpack_header width bytes).antenna_count ≡ from_le (take 2 (drop (width + 20) bytes)))
      × ((unpack_header width bytes).subcarrier_count ≡ from_le (take 2 (drop (width + 22) bytes)))
unfolding unpack_header
counts_at width bytes = (
  ap (λ xs. from_le (take 2 xs)) (sym antennas_from),
  ap (λ xs. from_le (take 2 xs)) (sym subcarriers_from),
)
  where
    antennas_from :
        drop (width + 20) bytes
        ≡ drop 2 (drop 2 (drop 2 (drop 2 (drop 6 (drop width (drop 2 (drop 4 bytes)))))))
    antennas_from =
        ap (λ n. drop n bytes) e
        ∙ rw
            (
              drop-add (4 + 2 + width + 6 + 2 + 2 + 2) 2 bytes,
              drop-add (4 + 2 + width + 6 + 2 + 2) 2 bytes,
              drop-add (4 + 2 + width + 6 + 2) 2 bytes,
              drop-add (4 + 2 + width + 6) 2 bytes,
              drop-add (4 + 2 + width) 6 bytes,
              drop-add (4 + 2) width bytes,
              drop-add 4 2 bytes,
            )
            refl
      where
        e : width + 20 ≡ 4 + 2 + width + 6 + 2 + 2 + 2 + 2
        e = omega arith

    subcarriers_from :
        drop (width + 22) bytes
        ≡ drop 2 (drop 2 (drop 2 (drop 2 (drop 2 (drop 6 (drop width (drop 2 (drop 4 bytes))))))))
    subcarriers_from =
        ap (λ n. drop n bytes) e ∙ drop-add (width + 20) 2 bytes ∙ ap (drop 2) antennas_from
      where
        e : width + 22 ≡ width + 20 + 2
        e = omega arith

Room-layout :
    (bytes : List ℕ) (width : ℕ)
    → name_width (from_le (take 2 (drop 4 bytes))) ≡ some width
    → Room width bytes
    → ((from_le (take 2 (drop 4 bytes)) ≡ 1)
        × (44 + from_le (take 2 (drop 36 bytes)) * from_le (take 2 (drop 38 bytes)) * 8
            ≤ length bytes))
      ⊎ ((from_le (take 2 (drop 4 bytes)) ≡ 2)
          × (60 + from_le (take 2 (drop 52 bytes)) * from_le (take 2 (drop 54 bytes)) * 8
              ≤ length bytes))
Room-layout bytes width v room = elim (name_width-cases (from_le (take 2 (drop 4 bytes))) width v) [
  | inl (one, w) ↦ inl (
    one,
    rw ((counts_at 16 bytes).0, (counts_at 16 bytes).1) at (subst (λ n. Room n bytes) w room),
  )
  | inr (two, w) ↦ inr (
    two,
    rw ((counts_at 32 bytes).0, (counts_at 32 bytes).1) at (subst (λ n. Room n bytes) w room),
  )
]

-- The parser accepts a datagram exactly if its magic is 0x43534921 and it has one of two layouts:
-- version 1 with 44 bytes of header and its antenna and subcarrier counts at the offsets 36 and 38, or
-- version 2 with 60 bytes of header and the counts at 52 and 54, and in both cases at least eight
-- bytes for each antenna and subcarrier behind the header.
pub parse_packet-accepts_iff :
    (bytes : List ℕ) → ((p : CsiPacket) × (parse_packet bytes ≡ packet p)) ↔ Acceptable bytes
parse_packet-accepts_iff bytes = (to, from)
  where
    to : ((p : CsiPacket) × (parse_packet bytes ≡ packet p)) → Acceptable bytes
    to (p, e) =
        let (width, m, v, b) = parse_packet_opened bytes p e in
        record { magic = m; layout = Room-layout bytes width v (parse_body-Room width bytes p b) }

    opens :
        (width : ℕ)
        → from_le (take 4 bytes) ≡ packet_magic
        → name_width (from_le (take 2 (drop 4 bytes))) ≡ some width
        → Room width bytes
        → (p : CsiPacket) × (parse_packet bytes ≡ packet p)
    opens width m v room =
        let long : header_size 16 ≤ length bytes =
          omega (arith, name_width-ge (from_le (take 2 (drop 4 bytes))) width v, room) in
        (
          body_packet width bytes,
          parse_packet_opens bytes width long m v ∙ parse_body-accepts width bytes room,
        )

    from : Acceptable bytes → (p : CsiPacket) × (parse_packet bytes ≡ packet p)
    from a = elim a.layout [
      | inl (v, room) ↦
          opens 16 a.magic (rw v) (rw ((counts_at 16 bytes).0, (counts_at 16 bytes).1) room)
      | inr (v, room) ↦
          opens 32 a.magic (rw v) (rw ((counts_at 32 bytes).0, (counts_at 32 bytes).1) room)
    ]

parse_body-packet :
    (width : ℕ) (bytes : List ℕ) (p : CsiPacket)
    → parse_body width bytes ≡ packet p
    → p ≡ body_packet width bytes
parse_body-packet width bytes p e =
    let e' : packet p ≡ packet (body_packet width bytes) =
      sym e ∙ parse_body-accepts width bytes (parse_body-Room width bytes p e) in
    cc e'

assemble_sizes :
    (h : Header) (flat : List ℕ)
    → length flat ≡ h.antenna_count * h.subcarrier_count * 2
    → let p = assemble h flat in
      (length p.amplitude ≡ p.antenna_count * p.subcarrier_count)
      × (length p.phase ≡ p.antenna_count * p.subcarrier_count)
unfolding assemble
assemble_sizes h flat e = (length-take _ flat ∙ omega arith, length-drop _ flat ∙ omega arith)

-- In an accepted packet both float arrays have antenna_count × subcarrier_count entries.
pub parse_packet-sizes :
    (bytes : List ℕ) (p : CsiPacket)
    → parse_packet bytes ≡ packet p
    → (length p.amplitude ≡ p.antenna_count * p.subcarrier_count)
      × (length p.phase ≡ p.antenna_count * p.subcarrier_count)
parse_packet-sizes bytes p e =
    let (width, _, _, b) = parse_packet_opened bytes p e in
    rw (parse_body-packet width bytes p b) (
      let h = unpack_header width bytes in
      let flat =
        words (h.antenna_count * h.subcarrier_count * 2) (drop (header_size width) bytes) in
      assemble_sizes h flat (length-words _ _))
