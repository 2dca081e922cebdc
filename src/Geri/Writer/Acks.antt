-- ===== src/Geri/Writer/Acks.antt =====
-- The acknowledgements of `CSIUDPProtocol` (geri/src/geri/main.py).
use mathlib.Core.Path.{ap₂}
use grimnir.Base.{
  ℕ, ◌+◌, ◌≤◌, ◌≡◌, ◌≢◌, ◌↔◌, refl, sym, subst, ◌∙◌, inl, inr, Bool, true, ◌&&◌, Option, none, some,
  List, [], ◌∷◌, ltb, ◌==◌, ==_iff, Bool-cases, str_eq, str_eq_iff, str_eq_refl, arith, length,
  lookup, insert, lookup-insert_self, lookup-insert_ne,
}
use grimnir.Geri.Packet.{Parsed, packet, parse_error, parse_packet}
use grimnir.Geri.Writer.Defs.{
  Addr, addr_eq, Entry, Protocol, ack_due, maybe_send_ack, put_nowait, receive, datagram_received,
}
use grimnir.Geri.Writer.Receive.{Arrival, run_arrivals}

addr_eq_iff : (a b : Addr) → (addr_eq a b ≡ true) ↔ (a ≡ b)
addr_eq_iff a b = (
  λ e.
      ap₂ (λ h p. let r : Addr = record { host = h; port = p } in r)
        ((str_eq_iff a.host b.host).0 (both-left e)) ((==_iff a.port b.port).0 (both-right e)),
  λ e. rw e (rw (str_eq_refl b.host) ((==_iff b.port b.port).1 refl)),
)
  where
    both-left : addr_eq a b ≡ true → str_eq a.host b.host ≡ true
    both-left e = ground arith

    both-right : addr_eq a b ≡ true → (a.port == b.port) ≡ true
    both-right e = ground arith

and_right : (a b : Bool) → (a && b) ≡ true → b ≡ true
and_right a b e = ground arith

module _ (interval : ℕ) where
  -- An acknowledgement comes at least the interval after the one before it to the same address.
  abbrev pub After : Option ℕ → ℕ → Type 0
  After none t = Unit
  After (some s) t = s + interval ≤ t

  abbrev pub Spaced : List (Addr × ℕ) → Type 0
  Spaced [] = Unit
  Spaced ((a, t) ∷ log) = After (lookup addr_eq a log) t × Spaced log

  -- The table holds the time of the last acknowledgement to each address.
  pub record AcksSound (p : Protocol) : Type 0 where
    pub last : (a : Addr) → lookup addr_eq a p.last_ack_sent ≡ lookup addr_eq a p.acks
    pub spaced : Spaced p.acks

  ack_due-After : (o : Option ℕ) (now : ℕ) → ack_due o now interval ≡ true → After o now
  ack_due-After none now e = tt
  ack_due-After (some s) now e = ground arith

  maybe_send_ack-AcksSound :
      (now : ℕ) (addr : Addr) (p : Protocol)
      → AcksSound p
      → AcksSound (maybe_send_ack interval now addr p)
  unfolding maybe_send_ack
  maybe_send_ack-AcksSound now addr p h =
      elim (Bool-cases
        (p.connected && ack_due (lookup addr_eq addr p.last_ack_sent) now interval)) [
          | inl t ↦ rw t (record { last = moved; spaced = (due t, h.spaced) })
          | inr f ↦ rw f h
        ]
    where
      due :
          (p.connected && ack_due (lookup addr_eq addr p.last_ack_sent) now interval) ≡ true
          → After (lookup addr_eq addr p.acks) now
      due t =
          subst (λ o. After o now) (h.last addr) (ack_due-After _ now (and_right p.connected _ t))

      moved :
          (a : Addr)
          → lookup addr_eq a (insert addr_eq addr now p.last_ack_sent)
            ≡ lookup addr_eq a ((addr, now) ∷ p.acks)
      moved a = elim (Bool-cases (addr_eq addr a)) [
        | inl t ↦
            let same : addr ≡ a = (addr_eq_iff addr a).0 t in
            rw t (rw same (lookup-insert_self addr_eq addr_eq_iff a now p.last_ack_sent))
        | inr f ↦
            let apart : a ≢ addr = λ e. absurd (cc (f, (addr_eq_iff addr a).1 (sym e))) in
            rw f (lookup-insert_ne addr_eq addr_eq_iff a addr now p.last_ack_sent apart ∙ h.last a)
      ]

  put_nowait-acks :
      (maxsize : ℕ) (e : Entry) (p : Protocol) → AcksSound p → AcksSound (put_nowait maxsize e p)
  put_nowait-acks maxsize e p h = elim (Bool-cases (ltb (length p.queue) maxsize)) [
    | inl t ↦ rw t (record { last = h.last; spaced = h.spaced })
    | inr f ↦ rw f (record { last = h.last; spaced = h.spaced })
  ]

  receive-AcksSound :
      (maxsize : ℕ) (parsed : Parsed) (a : Arrival) (p : Protocol)
      → AcksSound p
      → AcksSound (receive maxsize interval a.now a.wall_time parsed a.addr p)
  receive-AcksSound maxsize (parse_error e) a p h = record { last = h.last; spaced = h.spaced }
  receive-AcksSound maxsize (packet pkt) a p h =
      let s = maybe_send_ack-AcksSound a.now a.addr p h in
      put_nowait-acks maxsize _ _ (record { last = s.last; spaced = s.spaced })

  -- However datagrams arrive at a protocol whose table holds the times of its last acknowledgements,
  -- each acknowledgement is sent at least the interval after the one before it to the same address.
  pub run_arrivals-AcksSound :
      (maxsize : ℕ) (arrivals : List Arrival) (p : Protocol)
      → AcksSound p
      → AcksSound (run_arrivals maxsize interval arrivals p)
  unfolding datagram_received
  run_arrivals-AcksSound maxsize [] p h = h
  run_arrivals-AcksSound maxsize (a ∷ arrivals) p h =
      run_arrivals-AcksSound maxsize arrivals _
        (receive-AcksSound maxsize (parse_packet a.datagram) a p h)
