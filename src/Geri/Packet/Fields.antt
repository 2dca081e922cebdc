-- ===== src/Geri/Packet/Fields.antt =====
-- The writers of the fields, and that each reader of the parser undoes its writer.
use grimnir.Base.{
  ℕ, zero, suc, ◌+◌, ◌-◌, ◌*◌, ◌/◌, ◌%◌, ◌^◌, ◌<◌, ◌≡◌, refl, ap, sym, ◌∙◌, List, [], ◌∷◌, ◌++◌,
  arith, length, take, drop, All, ℤ, pos, negsuc, length-append,
}
use mathlib.Core.List.{append_assoc}
use native.Mathlib.Nat.{pow-suc}
use grimnir.Geri.Packet.Bytes.{from_le, words, to_int16, rstrip_nul, keep_unless_nul, decode_ascii}

-- `n` bytes, lowest first.
unfoldable pub to_le : ℕ → ℕ → List ℕ
to_le zero v = []
to_le (suc n) v = v % 256 ∷ to_le n (v / 256)

pub length-to_le : (n v : ℕ) → length (to_le n v) ≡ n
unfolding to_le
length-to_le zero v = refl
length-to_le (suc n) v = ap suc (length-to_le n (v / 256))

pub from_le-to_le : (n v : ℕ) → v < 256 ^ n → from_le (to_le n v) ≡ v
unfolding to_le from_le
from_le-to_le zero v h = omega arith
from_le-to_le (suc n) v h =
    let e : from_le (to_le n (v / 256)) ≡ v / 256 =
      from_le-to_le n (v / 256) (omega (arith, pow-suc 256 n)) in
    omega arith

pub take_left {ℓ} : {A : Type ℓ} (n : ℕ) (xs ys : List A) → length xs ≡ n → take n (xs ++ ys) ≡ xs
take_left zero [] ys h = refl
take_left zero (x ∷ xs) ys h = absurd (omega arith)
take_left (suc n) [] ys h = absurd (omega arith)
take_left (suc n) (x ∷ xs) ys h = ap (◌∷◌ x) (take_left n xs ys (omega arith))

pub drop_left {ℓ} : {A : Type ℓ} (n : ℕ) (xs ys : List A) → length xs ≡ n → drop n (xs ++ ys) ≡ ys
drop_left zero [] ys h = refl
drop_left zero (x ∷ xs) ys h = absurd (omega arith)
drop_left (suc n) [] ys h = absurd (omega arith)
drop_left (suc n) (x ∷ xs) ys h = drop_left n xs ys (omega arith)

unfoldable pub zeros : ℕ → List ℕ
zeros zero = []
zeros (suc n) = 0 ∷ zeros n

pub length-zeros : (n : ℕ) → length (zeros n) ≡ n
unfolding zeros
length-zeros zero = refl
length-zeros (suc n) = ap suc (length-zeros n)

pub rstrip_nul-zeros : (n : ℕ) → rstrip_nul (zeros n) ≡ []
unfolding zeros rstrip_nul
rstrip_nul-zeros zero = refl
rstrip_nul-zeros (suc n) = rw (rstrip_nul-zeros n)

pub rstrip_nul-append-zeros : (s : List ℕ) (n : ℕ) → rstrip_nul (s ++ zeros n) ≡ rstrip_nul s
unfolding rstrip_nul
rstrip_nul-append-zeros [] n = rstrip_nul-zeros n
rstrip_nul-append-zeros (b ∷ s) n = ap (keep_unless_nul b) (rstrip_nul-append-zeros s n)

pub decode_ascii_id : (s : List ℕ) → All (λ b. b < 128) s → decode_ascii s ≡ s
unfolding decode_ascii
decode_ascii_id [] h = refl
decode_ascii_id (b ∷ s) h = ground (arith, decode_ascii_id s h.1)

-- The two bytes of an int16.
abbrev pub of_int16 : ℤ → ℕ
of_int16 (pos n) = n
of_int16 (negsuc n) = 65535 - n

abbrev pub FitsInt16 : ℤ → Type 0
FitsInt16 (pos n) = n < 32768
FitsInt16 (negsuc n) = n < 32768

pub to_int16-of_int16 : (z : ℤ) → FitsInt16 z → to_int16 (of_int16 z) ≡ z
unfolding to_int16
to_int16-of_int16 (pos n) h = ground arith
to_int16-of_int16 (negsuc n) h = ground arith

pub of_int16-lt : (z : ℤ) → FitsInt16 z → of_int16 z < 65536
of_int16-lt (pos n) h = omega arith
of_int16-lt (negsuc n) h = omega arith

unfoldable pub put_words : List ℕ → List ℕ
put_words [] = []
put_words (w ∷ ws) = to_le 4 w ++ put_words ws

pub length-put_words : (ws : List ℕ) → length (put_words ws) ≡ length ws * 4
unfolding put_words
length-put_words [] = refl
length-put_words (w ∷ ws) =
    omega (arith, length-append (to_le 4 w) (put_words ws), length-to_le 4 w, length-put_words ws)

-- Reading as many words as were written gives them back.
pub words-put_words :
    (ws rest : List ℕ)
    → All (λ w. w < 4294967296) ws
    → words (length ws) (put_words ws ++ rest) ≡ ws
unfolding words put_words
words-put_words [] rest h = refl
words-put_words (w ∷ ws) rest h = rw (
  append_assoc (to_le 4 w) (put_words ws) rest,
  take_left 4 (to_le 4 w) (put_words ws ++ rest) (length-to_le 4 w),
  drop_left 4 (to_le 4 w) (put_words ws ++ rest) (length-to_le 4 w),
  from_le-to_le 4 w h.0,
  words-put_words ws rest h.1,
)

drop_nil {ℓ} : {A : Type ℓ} (n : ℕ) → drop n (let e : List A = [] in e) ≡ []
drop_nil zero = refl
drop_nil (suc n) = refl

pub drop-add {ℓ} : {A : Type ℓ} (m n : ℕ) (xs : List A) → drop (m + n) xs ≡ drop n (drop m xs)
drop-add zero n xs = let e : zero + n ≡ n = omega arith in rw e
drop-add {A} (suc m) n [] = drop_nil {A = A} (suc m + n) ∙ sym (drop_nil n)
drop-add (suc m) n (x ∷ xs) =
    let e : suc m + n ≡ suc (m + n) = omega arith in rw e (drop-add m n xs)

-- The magic and the version take six bytes.
pub drop_six : (a b : ℕ) (rest : List ℕ) → drop 6 (to_le 4 a ++ (to_le 2 b ++ rest)) ≡ rest
drop_six a b rest =
    drop-add 4 2 (to_le 4 a ++ (to_le 2 b ++ rest))
    ∙ rw (
      drop_left 4 (to_le 4 a) (to_le 2 b ++ rest) (length-to_le 4 a),
      drop_left 2 (to_le 2 b) rest (length-to_le 2 b),
    )
