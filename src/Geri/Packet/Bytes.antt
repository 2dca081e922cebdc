-- ===== src/Geri/Packet/Bytes.antt =====
-- What the parser uses of Python's `struct`, `bytes` and `str`. Bytes and code points are numbers; a
-- little-endian field is a run of bytes, and a float32 stays its 32-bit pattern.
use grimnir.Base.{
  ℕ, zero, suc, ◌+◌, ◌-◌, ◌*◌, ◌/◌, ◌%◌, List, [], ◌∷◌, ◌++◌, map, ltb, ◌==◌, if◌then◌else◌, Str,
  take, drop, ℤ, pos, negsuc,
}

-- `<I`, `<H`: the first byte is the lowest.
unfoldable pub from_le : List ℕ → ℕ
from_le [] = 0
from_le (b ∷ bs) = b + 256 * from_le bs

-- `<h`: two's complement.
unfoldable pub to_int16 : ℕ → ℤ
to_int16 u = if ltb u 32768 then pos u else negsuc (65535 - u)

-- `<{n}f`
unfoldable pub words : ℕ → List ℕ → List ℕ
unfolding from_le
words zero bytes = []
words (suc n) bytes = from_le (take 4 bytes) ∷ words n (drop 4 bytes)

-- `rstrip(b"\x00")`
abbrev pub keep_unless_nul : ℕ → List ℕ → List ℕ
keep_unless_nul b [] = if b == 0 then [] else b ∷ []
keep_unless_nul b (c ∷ rest) = b ∷ c ∷ rest

unfoldable pub rstrip_nul : List ℕ → List ℕ
rstrip_nul [] = []
rstrip_nul (b ∷ bs) = keep_unless_nul b (rstrip_nul bs)

-- `decode("ascii", errors="replace")`: U+FFFD for each byte that is no ASCII.
unfoldable pub decode_ascii : List ℕ → Str
decode_ascii = map (λ b. if ltb b 128 then b else 0xFFFD)

-- `f"{b:02x}"`
abbrev pub hex_digit : ℕ → ℕ
hex_digit d = if ltb d 10 then 48 + d else 87 + d

abbrev pub hex_byte : ℕ → Str
hex_byte b = hex_digit (b / 16) ∷ hex_digit (b % 16) ∷ []

-- `":".join(...)`
unfoldable pub join_colon : List Str → Str
join_colon [] = []
join_colon (s ∷ []) = s
join_colon (s ∷ t ∷ rest) = s ++ (58 ∷ join_colon (t ∷ rest))
