-- ===== src/Packet/Queue/Calls.antt =====
-- The calls `push` and `pop` of packet_queue.hpp as a whole: they return, and keep the invariant.
use tunator.Prelude.{ℕ, ◌+◌, ◌≡◌, ◌<◌, Bool, some, List, u64}
use tunator.Packet.Ring.{Ring, RingLaws}
use tunator.Packet.Queue.{PacketAction, PacketQueue, Pushed, Wake, push, pop}
use tunator.Packet.Queue.Valid.{IsConfined, IsValid}
use tunator.Packet.Queue.Keeps.{try_push-IsValid, try_pop-IsValid, count-IsValid}
use tunator.Packet.Queue.Waits.{Waits, push_total, pop_total}

module _ (r : Ring) (laws : RingLaws r) (action : PacketAction) where
  -- `push` returns on a valid queue and leaves it valid, whatever other threads do in its sleeps
  -- that keeps the queue valid; it has then slept less than `block_wait + 100` milliseconds. The
  -- action writes within its packet, and `block_wait + 100` fits in a `size_t`.
  pub push_returns :
      (during : ℕ → PacketQueue r → PacketQueue r) (s : PacketQueue r)
      → IsConfined action
      → ((k : ℕ) (t : PacketQueue r) → IsValid r laws t → IsValid r laws (during k t))
      → s.block_wait + 100 < u64
      → IsValid r laws s
      → (p : Pushed r) × (push r action during s ≡ some p)
        × (p.slept < s.block_wait + 100)
        × IsValid r laws p.state
  push_returns during s c rely small v =
      push_total r action during (IsValid r laws) (λ t w. try_push-IsValid r laws action t c w) rely
        (λ t w. count-IsValid r laws t _ w) s small v

  -- `pop` returns on a valid queue and leaves it valid, whatever the action does and other threads
  -- do in its waits that keeps the queue valid, if one of the waits times out.
  pub pop_returns :
      (ws : List (Wake r)) (s : PacketQueue r)
      → Waits r (IsValid r laws) ws
      → IsValid r laws s
      → (b : Bool) × (s' : PacketQueue r) × (pop r action ws s ≡ some (b, s')) × IsValid r laws s'
  pop_returns ws s h v =
      pop_total r action (IsValid r laws) (λ t t' w e. try_pop-IsValid r laws action t t' w e)
        (λ t ps' w. count-IsValid r laws t ps' w) ws s h v
