-- ===== src/Geri/Receivers/Examples.antt =====
-- Runs of the aggregator's database calls, and the theorem on ids at one table.
use grimnir.Base.{ℕ, ℕ, ◌≡◌, ◌↔◌, refl, true, none, some, List, [], ◌∷◌, arith, Str, codes, str_eq}
use grimnir.Geri.Packet.{join_colon}
use grimnir.Geri.Receivers.Defs.{
  Receivers, new_receiver, get_or_create_receiver_id, receiver_mac, upsert_heartbeat, insert_batch,
}
use grimnir.Geri.Receivers.Ids.{get_or_create_receiver_id-same_iff}

-- The bytes of the name stand for its digest.
abbrev digest : Str → List ℕ
digest name = name

abbrev hall : Str
hall = codes "hall"

abbrev attic : Str
attic = codes "attic"

abbrev one_row : Receivers
one_row = record { rows = new_receiver 3 (receiver_mac digest hall) hall 1 ∷ []; next_id = 4 }

abbrev two_rows : Receivers
two_rows = record {
  rows =
      new_receiver 3 (receiver_mac digest hall) hall 1
      ∷ new_receiver 4 (receiver_mac digest attic) attic 9
      ∷ [];
  next_id = 5;
}

abbrev alone : Receivers → Receivers
alone t = t

program : Unit {0}
unfolding get_or_create_receiver_id upsert_heartbeat insert_batch str_eq join_colon
program = tt

-- 'a' is 0x61, of which the lowest two bits become 10.
first_octet : receiver_mac digest (codes "a") ≡ codes "62"
unfolding program
first_octet = refl

new_name : get_or_create_receiver_id digest attic 9 alone one_row ≡ (some 4, two_rows)
unfolding program
new_name = refl

known_name : get_or_create_receiver_id digest hall 9 alone one_row ≡ (some 3, one_row)
unfolding program
known_name = refl

-- A clash of the derived addresses is an error.
clash :
    get_or_create_receiver_id
      (λ _. 1 ∷ 2 ∷ [])
      attic
      9
      alone
      (record {
        rows = new_receiver 0 (receiver_mac (λ _. 1 ∷ 2 ∷ []) hall) hall 1 ∷ [];
        next_id = 1;
      })
    ≡ (
      none,
      record {
        rows = new_receiver 0 (receiver_mac (λ _. 1 ∷ 2 ∷ []) hall) hall 1 ∷ [];
        next_id = 2;
      },
    )
unfolding program
clash = refl

unknown_receiver : upsert_heartbeat (λ _. true) 9 none 5 one_row.rows [] ≡ none
unfolding program
unknown_receiver = refl

get_or_create_receiver_id-same_iff_example : (◌≡◌ {A = ℕ} 4 3) ↔ (attic ≡ hall)
unfolding program
get_or_create_receiver_id-same_iff_example =
    get_or_create_receiver_id-same_iff digest attic hall 9 9 alone alone one_row two_rows 4 3
      (ground arith) (ground arith) (λ _ _ e. e) refl (λ _ _ e. e) (ground arith) (ground arith)
      (λ _ _ e. e) refl
