-- ===== src/Server/World/Echo.antt =====
-- Echo: a round of a device in echo mode keeps both of its queues.
use tunator.Prelude.{
  ℕ, zero, suc, ◌+◌, ◌≤◌, ◌≡◌, refl, sym, ap, subst, inl, inr, false, pos, ltb, arith, length, All,
  if◌then◌else◌,
}
use tunator.Text.{Text}
use tunator.Packet.Buffer.{Packet, Memory, read_bytes}
use tunator.Packet.Buffer.Bytes.{store_at_outside}
use tunator.Packet.Buffer.Layout.{get-IsPlaced}
use tunator.Packet.Buffer.Alloc.{FirstUnused}
use tunator.Packet.Ring.{Ring, RingLaws}
use tunator.Packet.Queue.{PacketAction, PacketQueue, packet_at, try_push}
use tunator.Packet.Queue.Valid.{
  IsConfined, InUse, no_room, rejects, accepts, called, try_push-same, try_push-Outcome,
}
use tunator.Packet.Queue.Keeps.{get_or_of_get, called_packet, count-IsValid, try_pop-Taken}
use tunator.Packet.Queue.Waits.{After, push_total}
use tunator.Device.Rounds.{pop_round}
use tunator.Device.Threads.{Sink, reading, front, pop_into, copy_bytes, echo_sink}
use tunator.Server.World.Queues.{Healthy, try_push-Healthy}

length-read_bytes : (m : Memory) (a n : ℕ) → length (read_bytes m a n) ≡ n
unfolding read_bytes
length-read_bytes m a zero = refl
length-read_bytes m a (suc n) = omega (arith, length-read_bytes m (a + 1) n)

-- The copy, where it fits.
fitting : Text → PacketAction
fitting bytes p m = if ltb p.max_size (length bytes) then (pos 0, m) else copy_bytes bytes p m

fitting-IsConfined : (bytes : Text) → IsConfined (fitting bytes)
unfolding fitting copy_bytes
fitting-IsConfined bytes = record {
  outside = λ p m a h. ground (arith, store_at_outside m p.buf bytes a);
  reports = λ p m n e. ground arith;
}

module _ (r : Ring) (laws : RingLaws r) (mtu : ℕ) (bytes : Text) (fits : length bytes ≤ mtu) where
  copies :
      (s : PacketQueue r) (j : ℕ)
      → Healthy r laws mtu s
      → FirstUnused s.pb.packets j
      → called r (copy_bytes bytes) s j ≡ called r (fitting bytes) s j
  unfolding fitting
  copies s j (v, _, m) f =
      let at_j = called_packet r s j f in
      let room : ltb f.at.max_size (length bytes) ≡ false =
        ground (arith, (get-IsPlaced j v.laid_out f.there).max_size_is, m) in
      rw (at_j, room) refl

  copy-Healthy :
      (s : PacketQueue r)
      → Healthy r laws mtu s
      → After r (Healthy r laws mtu) (try_push r (copy_bytes bytes) s)
  copy-Healthy s h =
      elim (try_push-same r laws (copy_bytes bytes) (fitting bytes) s (λ j f. copies s j h f)) [
        | inr e ↦
            subst (After r (Healthy r laws mtu)) (sym e)
              (try_push-Healthy r laws mtu (fitting bytes) s (fitting-IsConfined bytes) h)
        | inl all ↦ elim (try_push-Outcome r laws (copy_bytes bytes) s h.0) [
          | no_room _ e ↦ rw e (count-IsValid r laws s _ h.0, h.1, h.2)
          | rejects j f _ e ↦ cc (all j f.at f.there, f.unused)
          | accepts j n t f _ _ _ e ↦ cc (all j f.at f.there, f.unused)
        ]
      ]

  pub echo_sink-Healthy :
      (during : ℕ → PacketQueue r → PacketQueue r) (s : PacketQueue r)
      → ((k : ℕ) (t : PacketQueue r) → Healthy r laws mtu t → Healthy r laws mtu (during k t))
      → Healthy r laws mtu s
      → Healthy r laws mtu (echo_sink r during s bytes).1
  unfolding echo_sink
  echo_sink-Healthy during s rely h =
      let (p, came, slept, good) =
        push_total r (copy_bytes bytes) during (Healthy r laws mtu) (λ t k. copy-Healthy t k) rely
          (λ t k. (count-IsValid r laws t _ k.0, k.1, k.2)) s (omega (arith, h.1)) h in
      rw (came, echo_sink) good

module _ (r : Ring) (laws : RingLaws r) (mtu : ℕ) where
  -- What a round takes from the queue is no longer than a packet.
  pub pop_round-other :
      {E : Type 0} (P : E → Type 0) (act : Sink E) (s : PacketQueue r) (e : E)
      → Healthy r laws mtu s
      → P e
      → ((bytes : Text) → length bytes ≤ mtu → P (act e bytes).1)
      → P (pop_round r act s e).1
  unfolding pop_round pop_into front
  pop_round-other P act s e (v, _, m) here step = elim (try_pop-Taken r laws (reading act e) s) [
    | inl (_, _, none_left) ↦ rw (none_left, pop_round) here
    | inr (i, is, t, cs, ct, cap', pops, took) ↦
        let u : InUse s.pb.packets i = (subst (All (InUse s.pb.packets)) cs v.in_use).0 in
        let at_i : packet_at s.pb i ≡ u.at = get_or_of_get s.pb.packets i _ u.there in
        let short : (packet_at s.pb i).size ≤ mtu = omega (
          arith,
          ap (λ (p : Packet). p.size) at_i,
          u.fits,
          (get-IsPlaced i v.laid_out u.there).max_size_is,
          m,
        ) in
        rw (took, pops, pop_round, front)
          (step _ (
            omega (
              arith,
              short,
              length-read_bytes s.pb.buffer (packet_at s.pb i).buf (packet_at s.pb i).size,
            )))
  ]
