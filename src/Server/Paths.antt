-- ===== src/Server/Paths.antt =====
-- Paths: packets on their way through the parts of the program.
use tunator.Prelude.{
  ℕ, suc, ◌/◌, inl, inr, ◌+◌, ◌≤◌, ◌<◌, ◌≡◌, ◌≢◌, refl, sym, ap, subst, ◌∙◌, true, false, List, [],
  ◌∷◌, ◌++◌, arith, pos, some, length, length-drop, take, take_all, u64, ltb,
}
use tunator.Text.{Text, codes}
use tunator.Packet.Buffer.{Packet, store_at}
use tunator.Packet.Buffer.Alloc.{FirstUnused, FirstUnused-unique}
use tunator.Packet.Ring.{Ring, RingLaws}
use tunator.Packet.Queue.{
  PacketAction, PacketQueue, Attempt, returned, no_packet, try_push, push, push_loop,
}
use tunator.Packet.Queue.Valid.{IsValid, called, try_push-same}
use tunator.Packet.Queue.Keeps.{try_push-IsValid, called_packet}
use tunator.Packet.Queue.Waits.{After}
use tunator.Packet.Queue.Fifo.{view}
use tunator.Device.Driver.{Tun, no_header, tun_write}
use tunator.Device.Driver.Frame.{TunWrites}
use tunator.Device.Threads.{pop_into, write_sink, send_sink, copy_bytes, echo_sink}
use tunator.Device.Threads.Pops.{pop_into_lem}
use tunator.Server.{from, get_header, copy_action, on_message, to_packet}
use tunator.Server.Queued.{
  QueuedSpec, body_of, copy_action-IsConfined, try_push-copy_action, called_lem,
}

on_message-packet : (x : Text) → on_message true (from (codes "PAKT" ++ x)) ≡ to_packet
unfolding on_message from get_header
on_message-packet x =
    let long : ltb (length (codes "PAKT" ++ x)) 4 ≡ false = ground arith in rw long refl

body-ne-nil : (message : Text) → 4 < length message → body_of message ≢ []
body-ne-nil message h e =
    let none_left : length (body_of message) ≡ 0 = ap length e in
    omega (arith, length-drop 4 message)

FirstUnused-at :
    (ps : List Packet) (j k : ℕ) (f : FirstUnused ps j) (g : FirstUnused ps k) → f.at ≡ g.at
FirstUnused-at ps j k f g = cc (f.there, g.there, FirstUnused-unique f g)

module _ (r : Ring) (laws : RingLaws r) (message : Text) (s : PacketQueue r) (j : ℕ)
    (f : FirstUnused s.pb.packets j) (some_body : body_of message ≢ [])
    (fits : length (body_of message) ≤ f.at.max_size) where
  -- A round that queued the whole of the message.
  abbrev Queued : Attempt r → Type 0
  Queued a =
      (s' : PacketQueue r) × (a ≡ returned true s')
      × (view r laws s' ≡ view r laws s ++ body_of message ∷ [])
      × IsValid r laws s'

  whole :
      (k : ℕ) (g : FirstUnused s.pb.packets k)
      → take g.at.max_size (body_of message) ≡ body_of message
  whole k g =
      subst (λ (p : Packet). take p.max_size (body_of message) ≡ body_of message)
        (FirstUnused-at s.pb.packets j k f g) (take_all f.at.max_size (body_of message) fits)

  whole_body :
      (a : Attempt r) → QueuedSpec r laws message s a → After r (IsValid r laws) a → Queued a
  whole_body (no_packet s') h v = cc (h.0 j f.at f.there, f.unused)
  whole_body (returned false s') (k, g, e, _) v = absurd (some_body (sym (whole k g) ∙ e))
  whole_body (returned true s') (k, g, e) v =
      (s', refl, e ∙ ap (λ b. view r laws s ++ b ∷ []) (whole k g), v)

  push_body :
      4 ≤ length message
      → length message < u64
      → IsValid r laws s
      → Queued (try_push r (copy_action (from message)) s)
  push_body long short v =
      whole_body (try_push r (copy_action (from message)) s)
        (try_push-copy_action r laws message s long short v)
        (try_push-IsValid r laws (copy_action (from message)) s
          (copy_action-IsConfined (from message)) v)

-- A packet for which a device reads or the web socket sends, and its way to the other end.
module _ (r : Ring) (laws : RingLaws r) where
  -- A message of 4 bytes and a packet, in a valid and empty queue whose first unused packet has room
  -- for it, is handed to the system as one frame that the device takes, the header and the packet, behind
  -- those before it; the queue is then empty again.
  pub message_to_device :
      (tun : Tun) (tl : TunWrites tun) (tun_header : Text → Text → Text) (message : Text)
      (s : PacketQueue r) (st : tun.State) (j : ℕ) (f : FirstUnused s.pb.packets j)
      → 4 < length message
      → length message < u64
      → length (body_of message) ≤ f.at.max_size
      → length (tun_header no_header (body_of message)) + length (body_of message) ≤ tl.limit st
      → view r laws s ≡ []
      → IsValid r laws s
      → (s' s'' : PacketQueue r) × (st' : tun.State) × (try_push r (copy_action (from message)) s
          ≡ returned true s')
        × (pop_into r (write_sink tun tun_header) s' st ≡ some (s'', st'))
        × (tl.written st'
            ≡ tl.written st ++ (tun_header no_header (body_of message) ++ body_of message) ∷ [])
        × (view r laws s'' ≡ [])
  unfolding write_sink tun_write
  message_to_device tun tl tun_header message s st j f long short fits small empty v =
      let body = body_of message in
      let (s', pushed, queued, v') =
        push_body r laws message s j f (body-ne-nil message long) fits (omega arith) short v in
      let (st', wrote, frames) = tl.writev_all st (tun_header no_header body) body small in
      let (s'', popped, left, _) =
        pop_into_lem r laws (write_sink tun tun_header) s' st body [] v'
          (queued ∙ ap (λ l. l ++ body ∷ []) empty) in
      (s', s'', st', pushed, popped ∙ ap (λ w. some (s'', w)) (ap (λ w. w.1) wrote), frames, left)

  -- The oldest packet of one device's queue is sent as a message that the other server hands to the
  -- queue of its device, where it is queued whole: it is not empty, a message of its size fits in a
  -- `size_t`, and the first unused packet there has room for it.
  pub relay :
      (a b : PacketQueue r) (sent : List Text) (x : Text) (xs : List Text) (j : ℕ)
      (f : FirstUnused b.pb.packets j)
      → view r laws a ≡ x ∷ xs
      → x ≢ []
      → length x + 4 < u64
      → length x ≤ f.at.max_size
      → IsValid r laws a
      → IsValid r laws b
      → (a' b' : PacketQueue r) × (m : Text) × (pop_into r send_sink a sent
          ≡ some (a', sent ++ m ∷ []))
        × (view r laws a' ≡ xs)
        × (on_message true (from m) ≡ to_packet)
        × (try_push r (copy_action (from m)) b ≡ returned true b')
        × (view r laws b' ≡ view r laws b ++ x ∷ [])
  unfolding send_sink
  relay a b sent x xs j f full some_bytes small fits va vb =
      let (a', popped, left, _) = pop_into_lem r laws send_sink a sent x xs va full in
      let m = codes "PAKT" ++ x in
      let (b', pushed, queued, _) =
        push_body r laws m b j f some_bytes fits (omega arith) (omega arith) vb in
      (a', b', m, popped, left, on_message-packet x, pushed, queued)

  copy_bytes-same :
      (x : Text) (b : PacketQueue r) (j : ℕ) (f : FirstUnused b.pb.packets j)
      → length x + 4 < u64
      → length x ≤ f.at.max_size
      → (k : ℕ) → FirstUnused b.pb.packets k
      → called r (copy_action (from (codes "PAKT" ++ x))) b k ≡ called r (copy_bytes x) b k
  unfolding copy_bytes
  copy_bytes-same x b j f small fits k g =
      let fits' : length x ≤ g.at.max_size =
        subst (λ (p : Packet). length x ≤ p.max_size) (FirstUnused-at b.pb.packets j k f g) fits in
      called_lem r laws (codes "PAKT" ++ x) b (omega arith) (omega arith) k g
      ∙ ap (λ y. (pos (length y), store_at b.pb.buffer g.at.buf y)) (take_all g.at.max_size x fits')
      ∙ sym (ap (λ p. copy_bytes x p b.pb.buffer) (called_packet r b k g))

  -- A round of push at once is the whole call.
  push_at_once :
      (action : PacketAction) (during : ℕ → PacketQueue r → PacketQueue r) (b b' : PacketQueue r)
      → 0 < b.block_wait
      → try_push r action b ≡ returned true b'
      → push r action during b ≡ some (record { result = true; slept = 0; state = b' })
  unfolding push push_loop
  push_at_once action during b b' h e =
      let enough : b.block_wait / 10 + 3 ≡ suc (b.block_wait / 10 + 2) = omega arith in
      rw enough (ground arith)

  -- In echo mode a round moves the oldest packet of toTun, unchanged, behind those of fromTun, where it
  -- is not empty, a message of its size fits in a `size_t`, fromTun waits at all, and its first unused
  -- packet has room for it; both queues stay valid.
  pub echo_moves :
      (during : ℕ → PacketQueue r → PacketQueue r) (a b : PacketQueue r) (x : Text) (xs : List Text)
      (j : ℕ) (f : FirstUnused b.pb.packets j)
      → view r laws a ≡ x ∷ xs
      → x ≢ []
      → length x + 4 < u64
      → length x ≤ f.at.max_size
      → 0 < b.block_wait
      → IsValid r laws a
      → IsValid r laws b
      → (a' b' : PacketQueue r) × (pop_into r (echo_sink r during) a b ≡ some (a', b'))
        × (view r laws a' ≡ xs)
        × (view r laws b' ≡ view r laws b ++ x ∷ [])
        × IsValid r laws a'
        × IsValid r laws b'
  unfolding echo_sink
  echo_moves during a b x xs j f full some_bytes small fits waits va vb =
      let m = codes "PAKT" ++ x in
      let (b', pushed, queued, vb') =
        push_body r laws m b j f some_bytes fits (omega arith) (omega arith) vb in
      let same : try_push r (copy_bytes x) b ≡ returned true b' =
        elim (try_push-same r laws (copy_action (from m)) (copy_bytes x) b
          (copy_bytes-same x b j f small fits)) [
            | inl all ↦ cc (all j f.at f.there, f.unused)
            | inr e ↦ sym e ∙ pushed
          ] in
      let done = push_at_once (copy_bytes x) during b b' waits same in
      let (a', popped, left, va') = pop_into_lem r laws (echo_sink r during) a b x xs va full in
      (a', b', popped ∙ rw (done, echo_sink) refl, left, queued, va', vb')
