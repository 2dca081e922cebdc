-- ===== src/Geri/Receivers/Defs.antt =====
-- The functions of db.py over the tables of mimir/src/csi_models/models.py. SHA-256 and the test of
-- PostgreSQL's type for addresses are arguments; `none` is an exception, which undoes the call.
use grimnir.Base.{
  ℕ, suc, ◌+◌, ◌*◌, ◌/◌, Bool, true, not, ◌&&◌, Option, none, some, List, [], ◌∷◌, ◌++◌, map, ◌==◌,
  if◌then◌else◌, Str, codes, str_eq, take, update, exists, ℤ,
}
use grimnir.Geri.Packet.{hex_byte, join_colon}
use grimnir.Geri.Writer.{BatchRow}

-- class Receiver
pub record Receiver : Type 0 where
  pub id : ℕ
  pub mac : Str
  pub name : Str
  pub role : Str
  pub floor : ℕ
  pub location : Option Str
  pub active : Bool
  pub created_at : ℕ

-- class CsiSample, without the column that the aggregator leaves empty (raw_bytes).
pub record CsiSample : Type 0 where
  pub time : ℕ
  pub receiver_id : ℕ
  pub transmitter_mac : Str
  pub rssi : ℤ
  pub noise_floor : Option ℤ
  pub channel : ℕ
  pub bandwidth : ℕ
  pub antenna_count : ℕ
  pub subcarrier_count : ℕ
  pub amplitude : List ℕ
  pub phase : List ℕ
  pub label : Option Str

-- class ReceiverHeartbeat
pub record ReceiverHeartbeat : Type 0 where
  pub receiver_id : ℕ
  pub last_seen : ℕ
  pub ip_address : Option Str
  pub firmware_version : Option Str

pub record Receivers : Type 0 where
  pub rows : List Receiver
  pub next_id : ℕ

-- `(byte | 0x02) & 0xFE`: bit 1 set, bit 0 cleared.
abbrev pub local_byte : ℕ → ℕ
local_byte byte = 4 * (byte / 4) + 2

abbrev pub mac_bytes : List ℕ → List ℕ
mac_bytes [] = []
mac_bytes (b ∷ bs) = local_byte b ∷ bs

abbrev pub receiver_mac : (Str → List ℕ) → Str → Str
receiver_mac sha256 name = join_colon (map hex_byte (mac_bytes (take 6 (sha256 name))))

-- The id of the row with the name, of which there is one at most: the column is unique.
abbrev pub id_of : Str → List Receiver → Option ℕ
id_of name [] = none
id_of name (r ∷ rows) = if str_eq r.name name then some r.id else id_of name rows

abbrev pub new_receiver : ℕ → Str → Str → ℕ → Receiver
new_receiver id mac name now = record {
  id = id;
  mac = mac;
  name = name;
  role = codes "receiver";
  floor = 0;
  location = none;
  active = true;
  created_at = now;
}

-- INSERT ... ON CONFLICT (name) DO UPDATE SET active RETURNING id. The sequence moves on each time,
-- and the column `mac` is unique too.
abbrev pub upsert_receiver : Str → Str → ℕ → Receivers → Option ℕ → Option ℕ × Receivers
upsert_receiver mac name now t (some id) = (
  some id,
  record {
    rows = update (λ r. str_eq r.name name) (λ r. record r { active = true }) t.rows;
    next_id = suc t.next_id;
  },
)
upsert_receiver mac name now t none =
    if exists (λ r. str_eq r.mac mac) t.rows
    then (none, record t { next_id = suc t.next_id })
    else (
      some t.next_id,
      record {
        rows = t.rows ++ (new_receiver t.next_id mac name now ∷ []);
        next_id = suc t.next_id;
      },
    )

-- What follows the SELECT; `others` is what other sessions commit before the INSERT.
abbrev pub or_insert :
    Str → Str → ℕ → (Receivers → Receivers) → Receivers → Option ℕ → Option ℕ × Receivers
or_insert mac name now others t (some id) = (some id, t)
or_insert mac name now others t none =
    let u = others t in upsert_receiver mac name now u (id_of name u.rows)

unfoldable pub get_or_create_receiver_id :
    (Str → List ℕ) → Str → ℕ → (Receivers → Receivers) → Receivers → Option ℕ × Receivers
get_or_create_receiver_id sha256 name now others t =
    or_insert (receiver_mac sha256 name) name now others t (id_of name t.rows)

abbrev pub sample_of : BatchRow → CsiSample
sample_of b = record {
  time = b.wall_time;
  receiver_id = b.receiver_id;
  transmitter_mac = b.pkt.transmitter_mac;
  rssi = b.pkt.rssi;
  noise_floor = some b.pkt.noise_floor;
  channel = b.pkt.channel;
  bandwidth = b.pkt.bandwidth_mhz;
  antenna_count = b.pkt.antenna_count;
  subcarrier_count = b.pkt.subcarrier_count;
  amplitude = b.pkt.amplitude;
  phase = b.pkt.phase;
  label = none;
}

-- The foreign key on `receiver_id`.
abbrev pub known_receiver : List Receiver → ℕ → Bool
known_receiver rows k = exists (λ r. r.id == k) rows

-- `works` says whether the database takes the statement; the batch is stored whole or not at all.
unfoldable pub insert_batch :
    Bool → List BatchRow → List Receiver → List CsiSample → Option (List CsiSample)
insert_batch works [] rows samples = some samples
insert_batch works (b ∷ batch) rows samples =
    if works && not (exists (λ (x : BatchRow). not (known_receiver rows x.receiver_id)) (b ∷ batch))
    then some (samples ++ map sample_of (b ∷ batch))
    else none

abbrev pub beaten : ℕ → ℕ → Option Str → List ReceiverHeartbeat → List ReceiverHeartbeat
beaten k now ip_address [] =
    record { receiver_id = k; last_seen = now; ip_address = ip_address; firmware_version = none }
    ∷ []
beaten k now ip_address (h ∷ hs) =
    let rest = beaten k now ip_address hs in
    if h.receiver_id == k
    then record h { last_seen = now; ip_address = ip_address } ∷ hs
    else h ∷ rest

abbrev pub address_fits : (Str → Bool) → Option Str → Bool
address_fits inet none = true
address_fits inet (some text) = inet text

unfoldable pub upsert_heartbeat :
    (Str → Bool)
    → ℕ
    → Option Str
    → ℕ
    → List Receiver
    → List ReceiverHeartbeat
    → Option (List ReceiverHeartbeat)
upsert_heartbeat inet receiver_id ip_address now rows beats =
    if known_receiver rows receiver_id && address_fits inet ip_address
    then some (beaten receiver_id now ip_address beats)
    else none
