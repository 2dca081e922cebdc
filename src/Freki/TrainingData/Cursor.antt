-- ===== src/Freki/TrainingData/Cursor.antt =====
-- `_encode_cursor` and `_decode_cursor` of freki/src/freki/routers/training_data.py.
use grimnir.Base.{ℕ, ◌≡◌, refl, Option, none, some, List, Str, codes, Reply, ok, http}
use grimnir.Freki.TrainingData.Defs.{Key}

-- What the two functions call: `datetime.isoformat` and `datetime.fromisoformat`, `int`, the
-- dictionary with the items "t" and "r", `json.dumps` and `json.loads` on bytes, and URL-safe base64 in
-- ASCII. `none` is a ValueError, and a code is that of the error raised: 422 for a ValueError or a
-- KeyError, 500 for a TypeError.
pub record CursorLibrary (J : Type 0) : Type 0 where
  pub isoformat : ℕ → Str
  pub fromisoformat : J → Reply ℕ
  pub int : J → Reply ℕ
  pub dict : Str → ℕ → J
  pub item : J → Str → Reply J
  pub dumps : J → List ℕ
  pub loads : List ℕ → Option J
  pub b64encode : List ℕ → Str
  pub b64decode : Str → Option (List ℕ)

abbrev or_422 : {A : Type 0} → Option A → Reply A
or_422 none = http 422
or_422 (some a) = ok a

abbrev and_then : {A B : Type 0} → Reply A → (A → Reply B) → Reply B
and_then (http c) f = http c
and_then (ok a) f = f a

module _ {J : Type 0} (library : CursorLibrary J) where
  unfoldable pub encode_cursor : Key → Str
  encode_cursor k = library.b64encode (library.dumps (library.dict (library.isoformat k.t) k.r))

  unfoldable pub decode_cursor : Str → Reply Key
  decode_cursor cursor = and_then (or_422 (library.b64decode cursor)) λ payload.
      and_then (or_422 (library.loads payload)) λ obj.
        and_then (library.item obj (codes "t")) λ t_item.
          and_then (library.fromisoformat t_item) λ t.
            and_then (library.item obj (codes "r"))
              λ r_item. and_then (library.int r_item) λ r. ok (record { t = t; r = r })

  -- Each reader of the library undoes its writer.
  pub record IsInverse : Type 0 where
    pub text : Str → J
    pub number : ℕ → J
    pub base64 : (bytes : List ℕ) → library.b64decode (library.b64encode bytes) ≡ some bytes
    pub json : (value : J) → library.loads (library.dumps value) ≡ some value
    pub item_t : (s : Str) (n : ℕ) → library.item (library.dict s n) (codes "t") ≡ ok (text s)
    pub item_r : (s : Str) (n : ℕ) → library.item (library.dict s n) (codes "r") ≡ ok (number n)
    pub time : (t : ℕ) → library.fromisoformat (text (library.isoformat t)) ≡ ok t
    pub integer : (n : ℕ) → library.int (number n) ≡ ok n

  -- A cursor is read back as it was written, if each reader of the library undoes its writer.
  pub decode_cursor-encode_cursor : IsInverse → (k : Key) → decode_cursor (encode_cursor k) ≡ ok k
  unfolding decode_cursor encode_cursor
  decode_cursor-encode_cursor h k =
      let s = library.isoformat k.t in
      rw
        (
          h.base64 (library.dumps (library.dict s k.r)),
          or_422,
          and_then,
          h.json (library.dict s k.r),
          h.item_t s k.r,
          h.time k.t,
          h.item_r s k.r,
          h.integer k.r,
        )
        refl
