-- ===== src/Geri/Writer/Receive.antt =====
-- Arriving datagrams, the queue and the counters of `CSIUDPProtocol` (geri/src/geri/main.py).
use grimnir.Base.{
  ℕ, ◌+◌, ◌≤◌, ◌≡◌, refl, inl, inr, ◌&&◌, List, [], ◌∷◌, ltb, ltb→lt, Bool-cases, arith, length,
  length-append, lookup,
}
use grimnir.Geri.Packet.{Parsed, packet, parse_error, parse_packet}
use grimnir.Geri.Writer.Defs.{
  Addr, addr_eq, Entry, Protocol, ack_due, maybe_send_ack, put_nowait, receive, datagram_received,
}

-- A datagram with the clocks at its arrival.
pub record Arrival : Type 0 where
  pub now : ℕ
  pub wall_time : ℕ
  pub datagram : List ℕ
  pub addr : Addr

module _ (maxsize interval : ℕ) where
  abbrev pub run_arrivals : List Arrival → Protocol → Protocol
  run_arrivals [] p = p
  run_arrivals (a ∷ arrivals) p =
      run_arrivals arrivals
        (datagram_received maxsize interval a.now a.wall_time a.datagram a.addr p)

  -- Each accepted packet is queued or counted as dropped, and the queue is within its bound.
  abbrev pub Accounted : Protocol → Type 0
  Accounted p = (p.packets_received ≡ length p.queue + p.dropped) × (length p.queue ≤ maxsize)

  put_nowait-Accounted :
      (e : Entry) (p : Protocol)
      → (p.packets_received ≡ length p.queue + p.dropped + 1)
      → length p.queue ≤ maxsize
      → Accounted (put_nowait maxsize e p)
  put_nowait-Accounted e p h b = elim (Bool-cases (ltb (length p.queue) maxsize)) [
    | inl t ↦ rw t (
      omega (arith, h, length-append p.queue (e ∷ [])),
      omega (arith, ltb→lt _ _ t, length-append p.queue (e ∷ [])),
    )
    | inr f ↦ rw f (omega (arith, h), b)
  ]

  maybe_send_ack-rest :
      (now : ℕ) (addr : Addr) (p : Protocol)
      → ((maybe_send_ack interval now addr p).queue ≡ p.queue)
        × ((maybe_send_ack interval now addr p).dropped ≡ p.dropped)
        × ((maybe_send_ack interval now addr p).packets_received ≡ p.packets_received)
  unfolding maybe_send_ack
  maybe_send_ack-rest now addr p =
      elim (Bool-cases
        (p.connected && ack_due (lookup addr_eq addr p.last_ack_sent) now interval)) [
          | inl t ↦ rw t (refl, refl, refl)
          | inr f ↦ rw f (refl, refl, refl)
        ]

  receive-Accounted :
      (parsed : Parsed) (a : Arrival) (p : Protocol)
      → Accounted p
      → Accounted (receive maxsize interval a.now a.wall_time parsed a.addr p)
  receive-Accounted (parse_error e) a p h = h
  receive-Accounted (packet pkt) a p h =
      let (queue, dropped, received) = maybe_send_ack-rest a.now a.addr p in
      put_nowait-Accounted _ _ (rw (queue, dropped, received) (omega (arith, h.0))) (rw queue h.1)

  -- However datagrams arrive, the queue stays within its bound, and the accepted packets are those
  -- in the queue and those counted as dropped, while nothing is taken from the queue.
  pub run_arrivals-Accounted :
      (arrivals : List Arrival) (p : Protocol) → Accounted p → Accounted (run_arrivals arrivals p)
  unfolding datagram_received
  run_arrivals-Accounted [] p h = h
  run_arrivals-Accounted (a ∷ arrivals) p h =
      run_arrivals-Accounted arrivals _ (receive-Accounted (parse_packet a.datagram) a p h)
