-- ===== src/Server/World/Queues.antt =====
-- Queues: the rounds of a device's threads, and a message's packet, keep the device's two queues valid.
use tunator.Prelude.{
  ℕ, zero, suc, ◌+◌, ◌≤◌, ◌<◌, ◌≡◌, refl, ◌⊎◌, inl, inr, List, [], ◌∷◌, Option, none, some, ℤ, pos,
  negsuc, arith, length,
}
use tunator.Text.{Text}
use tunator.Packet.Buffer.{Packet}
use tunator.Packet.Buffer.Bytes.{store_at_outside}
use tunator.Packet.Ring.{Ring, RingLaws}
use tunator.Packet.Queue.{
  PacketAction, PacketQueue, Attempt, returned, no_packet, Pushed, try_push, push, consume,
}
use tunator.Packet.Queue.Valid.{IsConfined, IsValid, no_room, rejects, accepts, try_push-Outcome}
use tunator.Packet.Queue.Keeps.{
  count-IsValid, refused-IsValid, pushed-IsValid, consume-IsValid, try_pop-Taken,
}
use tunator.Packet.Queue.Waits.{After, push_total}
use tunator.Device.Driver.{Tun, tun_read, without_header, to_int, block_at}
use tunator.Device.Threads.{
  Sink, reading, pop_into, Poll, Read, is_minus_one, tun_dev_error, read_ended, after_poll,
  read_packet,
}
use tunator.Device.Threads.Reads.{if_some}
use tunator.Device.Rounds.{after, pop_round, read_into, read_action}

module _ (r : Ring) (laws : RingLaws r) (mtu : ℕ) where
  -- A queue of a device: it waits for 100 ms, and its packets have room for `mtu` bytes.
  abbrev pub Healthy : PacketQueue r → Type 0
  Healthy s = IsValid r laws s × (s.block_wait ≡ 100) × (s.pb.mtu ≡ mtu)

  pub try_push-Healthy :
      (action : PacketAction) (s : PacketQueue r)
      → IsConfined action
      → Healthy s
      → After r Healthy (try_push r action s)
  try_push-Healthy action s c (v, b, m) = elim (try_push-Outcome r laws action s v) [
    | no_room _ e ↦ rw e (count-IsValid r laws s _ v, b, m)
    | rejects j f _ e ↦ rw e (refused-IsValid r laws action s j v, b, m)
    | accepts j n t f good ct cap' e ↦
        rw e (pushed-IsValid r laws action s j (suc n) t c v f good ct cap', b, m)
  ]

  After-after : (P : PacketQueue r → Type 0) (a : Attempt r) → After r P a → P (after r a)
  After-after P (returned b s) h = h
  After-after P (no_packet s) h = h

  pub round-Healthy :
      (action : PacketAction) (s : PacketQueue r)
      → IsConfined action
      → Healthy s
      → Healthy (after r (try_push r action s))
  round-Healthy action s c h =
      After-after Healthy (try_push r action s) (try_push-Healthy action s c h)

  -- `push` returns and leaves the queue so, if what other threads do in its sleeps does.
  pub push-Healthy :
      (action : PacketAction) (during : ℕ → PacketQueue r → PacketQueue r) (s : PacketQueue r)
      → IsConfined action
      → ((k : ℕ) (t : PacketQueue r) → Healthy t → Healthy (during k t))
      → Healthy s
      → (p : Pushed r) × (push r action during s ≡ some p) × Healthy p.state
  push-Healthy action during s c rely h =
      let (p, came, slept, good) =
        push_total r action during Healthy (λ t k. try_push-Healthy action t c k) rely
          (λ t k. (count-IsValid r laws t _ k.0, k.1, k.2)) s (omega (arith, h.1)) h in
      (p, came, good)

  pub pop_round-Healthy :
      {E : Type 0} (act : Sink E) (s : PacketQueue r) (e : E)
      → Healthy s
      → Healthy (pop_round r act s e).0
  unfolding pop_round pop_into consume
  pop_round-Healthy act s e (v, b, m) = elim (try_pop-Taken r laws (reading act e) s) [
    | inl (_, _, none_left) ↦ rw (none_left, pop_round) (count-IsValid r laws s _ v, b, m)
    | inr (i, is, t, cs, ct, cap', _, took) ↦
        rw (took, pop_round) (consume-IsValid r laws (reading act e) s i is t v cs ct cap', b, m)
  ]

-- What `readv` promises: it fills no more than the blocks have room for.
pub record ReadLaws (tun : Tun) : Type 0 where
  pub stores : (s : tun.State) (n : ℕ) → length (block_at (tun.readv s (4 ∷ n ∷ [])).0.1 1) ≤ n
  pub counts : (s : tun.State) (n k : ℕ) → (tun.readv s (4 ∷ n ∷ [])).0.0 ≡ pos k → k ≤ 4 + n

without_header_fits :
    (ret : ℤ) (room m : ℕ)
    → ((k : ℕ) → ret ≡ pos k → k ≤ 4 + room)
    → without_header ret ≡ pos m
    → m ≤ room
unfolding without_header to_int
without_header_fits (pos zero) room m h e = ground arith
without_header_fits (pos (suc n)) room m h e = ground (arith, h (suc n) refl)
without_header_fits (negsuc n) room m h e = ground arith

module _ (tun : Tun) (laws : ReadLaws tun) where
  -- What a read leaves fits in the packet.
  abbrev Fits : ℕ → Read tun → Type 0
  Fits room x = (length x.stored ≤ room) × ((n : ℕ) → x.result ≡ pos n → n ≤ room)

  after_poll-stored :
      (p : Poll) (stored : Text) (st : tun.State) (again : Option (Read tun)) (x : Read tun)
      → after_poll tun p stored st again ≡ some x
      → ((x.stored ≡ stored) × ((x.result ≡ pos 0) ⊎ (x.result ≡ negsuc 0))) ⊎ (again ≡ some x)
  unfolding after_poll tun_dev_error
  after_poll-stored p stored st again x e = ground arith

  after_poll-Fits :
      (room : ℕ) (p : Poll) (stored : Text) (st : tun.State) (again : Option (Read tun))
      → length stored ≤ room
      → ((x : Read tun) → again ≡ some x → Fits room x)
      → (x : Read tun) → after_poll tun p stored st again ≡ some x
      → Fits room x
  after_poll-Fits room p stored st again short h x e =
      elim (after_poll-stored p stored st again x e) [
        | inl (same, inl z) ↦ (rw same short, λ n k. ground arith)
        | inl (same, inr z) ↦ (rw same short, λ n k. ground arith)
        | inr a ↦ h x a
      ]

  read_ended-Fits :
      (room : ℕ) (ret : ℤ) (stored : Text) (st : tun.State)
      → length stored ≤ room
      → ((n : ℕ) → ret ≡ pos n → n ≤ room)
      → Fits room (read_ended tun ret stored st)
  unfolding read_ended tun_dev_error
  read_ended-Fits room (pos zero) stored st short h = (short, h)
  read_ended-Fits room (pos (suc n)) stored st short h = (short, h)
  read_ended-Fits room (negsuc n) stored st short h = (short, h)

  tun_read-Fits :
      (room : ℕ) (st : tun.State)
      → (length (tun_read tun st room).0.1 ≤ room)
        × ((n : ℕ) → (tun_read tun st room).0.0 ≡ pos n → n ≤ room)
  unfolding tun_read
  tun_read-Fits room st =
      (laws.stores st room, λ n e. without_header_fits _ room n (laws.counts st room) e)

  pub read_packet-Fits :
      (room : ℕ) (ps : List Poll) (st : tun.State) (x : Read tun)
      → read_packet tun room ps st ≡ some x
      → Fits room x
  unfolding read_packet
  read_packet-Fits room [] st x e =
      let (short, small) = tun_read-Fits room st in
      if_some (Fits room) (is_minus_one (tun_read tun st room).0.0) _ none x (λ h. cc)
        (read_ended-Fits room _ _ _ short small) e
  read_packet-Fits room (p ∷ ps) st x e =
      let (short, small) = tun_read-Fits room st in
      if_some (Fits room) (is_minus_one (tun_read tun st room).0.0) _ _ x
        (after_poll-Fits room p _ _ _ short (read_packet-Fits room ps (tun_read tun st room).1) x)
        (read_ended-Fits room _ _ _ short small) e

  read_into-IsConfined :
      (p : Packet) (m : ℕ → ℕ) (o : Option (Read tun))
      → ((x : Read tun) → o ≡ some x → Fits p.max_size x)
      → ((a : ℕ) → (a < p.buf) ⊎ (p.buf + p.max_size ≤ a) → (read_into tun o p m).1 a ≡ m a)
        × ((n : ℕ) → (read_into tun o p m).0 ≡ pos n → n ≤ p.max_size)
  unfolding read_into
  read_into-IsConfined p m none h = (λ a out. refl, λ n e. ground arith)
  read_into-IsConfined p m (some x) h =
      (λ a out. store_at_outside m p.buf x.stored a (ground (arith, (h x refl).0)), (h x refl).1)

  pub read_action-IsConfined :
      (ps : List Poll) (st : tun.State) → IsConfined (read_action tun ps st)
  unfolding read_action
  read_action-IsConfined ps st = record {
    outside = λ p m a out. (read_into-IsConfined p m _ (read_packet-Fits p.max_size ps st)).0 a out;
    reports = λ p m n e. (read_into-IsConfined p m _ (read_packet-Fits p.max_size ps st)).1 n e;
  }
