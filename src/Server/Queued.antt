-- ===== src/Server/Queued.antt =====
-- Queued: what a message with a packet leaves in the queue to the tun device.
use tunator.Prelude.{
  ℕ, suc, ◌+◌, ◌-◌, ◌%◌, ◌≤◌, ◌<◌, ◌≡◌, ◌≢◌, refl, sym, ap, subst, ◌∙◌, true, false, [], ◌∷◌, ◌++◌,
  arith, pos, min, u64, length, take, drop, length-take, length-drop, ltb,
}
use tunator.Text.{Text}
use tunator.Packet.Buffer.{Packet, Memory, store_at, read_bytes}
use tunator.Packet.Buffer.Bytes.{
  store_at_outside, read_bytes-store_at, take-min, pos_eq, nil_of_length,
}
use tunator.Packet.Buffer.Alloc.{AllUsed, FirstUnused}
use tunator.Packet.Ring.{Ring, RingLaws}
use tunator.Packet.Queue.{PacketQueue, Attempt, returned, no_packet, try_push}
use tunator.Packet.Queue.Valid.{IsConfined, IsValid, called}
use tunator.Packet.Queue.Keeps.{called_packet}
use tunator.Packet.Queue.Fifo.{PushSpec, view, try_push_fifo}
use tunator.Server.{WsPacket, from, get_header, copy_out, copy_action}

pub copy_action-IsConfined : (w : WsPacket) → IsConfined (copy_action w)
unfolding copy_action copy_out
copy_action-IsConfined w = record {
  outside = λ p m a h.
      store_at_outside m p.buf (take (min p.max_size w.packet_len) w.rest) a
        (ground (arith, length-take (min p.max_size w.packet_len) w.rest));
  reports = λ p m n e. ground arith;
}

-- The packet of a message: what follows its header of four bytes.
abbrev pub body_of : Text → Text
body_of message = drop 4 message

module _ (r : Ring) (laws : RingLaws r) (message : Text) (s : PacketQueue r) where
  -- What a round of push leaves of a message.
  abbrev pub QueuedSpec : Attempt r → Type 0
  QueuedSpec (no_packet s') = AllUsed s.pb.packets × (view r laws s' ≡ view r laws s)
  QueuedSpec (returned false s') =
      (j : ℕ) × (f : FirstUnused s.pb.packets j) × (take f.at.max_size (body_of message) ≡ [])
      × (view r laws s' ≡ view r laws s)
  QueuedSpec (returned true s') =
      (j : ℕ) × (f : FirstUnused s.pb.packets j) × (view r laws s'
        ≡ view r laws s ++ take f.at.max_size (body_of message) ∷ [])

  module _ (long : 4 ≤ length message) (short : length message < u64) where
    copied :
        (p : Packet) (m : Memory)
        → copy_action (from message) p m ≡ (
          pos (length (take p.max_size (body_of message))),
          store_at m p.buf (take p.max_size (body_of message)),
        )
    unfolding copy_action copy_out from get_header
    copied p m =
        let size : min p.max_size ((length message + (u64 - 4)) % u64)
            ≡ min p.max_size (length (body_of message)) =
          omega (arith, length-drop 4 message) in
        let enough : ltb (length message) 4 ≡ false = ground arith in
        rw
          (
            size,
            enough,
            take-min p.max_size (body_of message),
            length-take p.max_size (body_of message),
          )
          refl

    pub called_lem :
        (j : ℕ) (f : FirstUnused s.pb.packets j)
        → called r (copy_action (from message)) s j ≡ (
          pos (length (take f.at.max_size (body_of message))),
          store_at s.pb.buffer f.at.buf (take f.at.max_size (body_of message)),
        )
    called_lem j f =
        ap (λ p. copy_action (from message) p s.pb.buffer) (called_packet r s j f)
        ∙ copied (record (f.at) { used = true }) s.pb.buffer

    queued : (a : Attempt r) → PushSpec r laws (copy_action (from message)) s a → QueuedSpec a
    queued (no_packet s') h = (h.0, h.1)
    queued (returned false s') (j, f, bad, same, ps) =
        (j, f, nil_of_length _ (λ n. subst (λ c. c.0 ≢ pos (suc n)) (called_lem j f) (bad n)), same)
    queued (returned true s') (j, n, f, e, v) =
        let text = take f.at.max_size (body_of message) in
        let size = pos_eq (ap (λ c. c.0) (sym (called_lem j f)) ∙ e) in
        (
          j,
          f,
          v
              ∙ ap (λ l. view r laws s ++ l ∷ [])
                  (ap (λ c. read_bytes c.1 f.at.buf (suc n)) (called_lem j f)
                    ∙ subst (λ k. read_bytes (store_at s.pb.buffer f.at.buf text) f.at.buf k ≡ text)
                        size (read_bytes-store_at s.pb.buffer f.at.buf text)),
        )

    -- On a valid queue, a round of push in processPacket queues of a message of four bytes or more,
    -- whose length fits in a size_t, what follows the first four, cut to the room of the first packet
    -- not in use, behind what was queued; what is queued stays as before if every packet is in use, or
    -- if nothing follows or nothing fits.
    pub try_push-copy_action :
        IsValid r laws s → QueuedSpec (try_push r (copy_action (from message)) s)
    try_push-copy_action v = queued (try_push r (copy_action (from message)) s) (
        try_push_fifo r laws (copy_action (from message)) s (copy_action-IsConfined (from message))
          v)
