-- ===== src/Packet/Queue/History.antt =====
-- Histories of packet_queue.hpp: the rounds of the producer's and the consumer's calls, interleaved.
use mathlib.Core.List.{append-nil, append_assoc}
use tunator.Prelude.{
  ℕ, suc, ◌≡◌, sym, ap, ap₂, ◌∙◌, inl, inr, true, false, Option, none, some, List, [], ◌∷◌, ◌++◌,
  map, ℤ, pos, negsuc, All, if◌then◌else◌,
}
use tunator.Packet.Ring.{Ring, RingLaws}
use tunator.Packet.Buffer.{read_bytes, Packet, alloc}
use tunator.Packet.Buffer.Alloc.{FirstUnused, alloc_first}
use tunator.Packet.Statistic.{inc_pop_empty}
use tunator.Packet.Queue.{
  PacketAction, PacketQueue, Attempt, returned, no_packet, packet_at, try_push, try_pop,
}
use tunator.Packet.Queue.Valid.{IsConfined, IsValid, called}
use tunator.Packet.Queue.Keeps.{
  get_or_of_get, try_push-IsValid, consume-IsValid, count-IsValid, try_pop-Taken,
}
use tunator.Packet.Queue.Waits.{After}
use tunator.Packet.Queue.Fifo.{payload, view, PushSpec, try_push_fifo, view-consume}

-- A round of `push` or of `pop`, with its action.
pub data Round : Type 0 where
  pushes pops : PacketAction → Round

abbrev pub action_of : Round → PacketAction
action_of (pushes action) = action
action_of (pops action) = action

abbrev magnitude : ℤ → ℕ
magnitude (pos n) = n
magnitude (negsuc n) = 0

module _ (r : Ring) where
  -- What the action writes into the packet that a pointer stands for.
  offer_at : PacketAction → PacketQueue r → Option ℕ → List ℕ
  offer_at action s none = []
  offer_at action s (some j) =
      read_bytes (called r action s j).1 (packet_at s.pb j).buf (magnitude (called r action s j).0)

  -- What it writes into the packet that `alloc` hands out.
  offered : PacketAction → PacketQueue r → List ℕ
  unfolding offer_at
  offered action s = offer_at action s (alloc s.pb).0

  -- What the packet that the ring gives holds.
  receive_at : PacketQueue r → Option (ℕ × r.State) → List ℕ
  receive_at s none = []
  receive_at s (some (i, q)) = payload s.pb i

  received : PacketQueue r → List ℕ
  unfolding receive_at
  received s = receive_at s (r.pop s.q)

  -- The state after a round, what it queued and what it delivered.
  pub record Log : Type 0 where
    pub state : PacketQueue r
    pub accepted : List (List ℕ)
    pub delivered : List (List ℕ)

  log_push : PacketAction → PacketQueue r → Attempt r → Log
  log_push action s (returned b s') = record {
    state = s';
    accepted = if b then offered action s ∷ [] else [];
    delivered = [];
  }
  log_push action s (no_packet s') = record { state = s'; accepted = []; delivered = [] }

  log_pop : PacketQueue r → Option (PacketQueue r) → Log
  log_pop s (some s') = record { state = s'; accepted = []; delivered = received s ∷ [] }
  log_pop s none = record {
    state = record s { ps = inc_pop_empty s.ps };
    accepted = [];
    delivered = [];
  }

  unfoldable pub round : PacketQueue r → Round → Log
  unfolding log_push log_pop offered received
  round s (pushes action) = log_push action s (try_push r action s)
  round s (pops action) = log_pop s (try_pop r action s)

  unfoldable pub history : PacketQueue r → List Round → Log
  unfolding round
  history s [] = record { state = s; accepted = []; delivered = [] }
  history s (c ∷ cs) =
      let now = round s c in
      let later = history now.state cs in
      record {
        state = later.state;
        accepted = now.accepted ++ later.accepted;
        delivered = now.delivered ++ later.delivered;
      }

module _ (r : Ring) (laws : RingLaws r) where
  -- A log from a queue that holds `before`.
  record Balances (before : List (List ℕ)) (l : Log r) : Type 0 where
    valid : IsValid r laws l.state
    flow : l.delivered ++ view r laws l.state ≡ before ++ l.accepted

  offered_lem :
      (action : PacketAction) (s : PacketQueue r) (j n : ℕ) (f : FirstUnused s.pb.packets j)
      → (called r action s j).0 ≡ pos n
      → offered r action s ≡ read_bytes (called r action s j).1 f.at.buf n
  unfolding offered
  offered_lem action s j n f good =
      rw (alloc_first s.pb f, offer_at)
        (ap₂ (λ (p : Packet) (z : ℤ). read_bytes (called r action s j).1 p.buf (magnitude z))
          (get_or_of_get s.pb.packets j _ f.there) good)

  log_push-Balances :
      (action : PacketAction) (s : PacketQueue r) (a : Attempt r)
      → PushSpec r laws action s a
      → After r (IsValid r laws) a
      → Balances (view r laws s) (log_push r action s a)
  unfolding log_push
  log_push-Balances action s (no_packet s') (_, same, _) v = record {
    valid = v;
    flow = same ∙ sym (append-nil _);
  }
  log_push-Balances action s (returned false s') (j, f, bad, same, _) v = record {
    valid = v;
    flow = same ∙ sym (append-nil _);
  }
  log_push-Balances action s (returned true s') (j, n, f, good, new) v = record {
    valid = v;
    flow = new ∙ ap (λ x. view r laws s ++ x ∷ []) (sym (offered_lem action s j (suc n) f good));
  }

  log_pop-Balances :
      (action : PacketAction) (s : PacketQueue r)
      → IsConfined action
      → IsValid r laws s
      → Balances (view r laws s) (log_pop r s (try_pop r action s))
  unfolding log_pop received
  log_pop-Balances action s c v = elim (try_pop-Taken r laws action s) [
    | inl (_, _, e) ↦
        rw e (record { valid = count-IsValid r laws s _ v; flow = sym (append-nil _) })
    | inr (i, is, t, cs, ct, same, front, e) ↦
        rw (e, front, receive_at)
          (record {
            valid = consume-IsValid r laws action s i is t v cs ct same;
            flow =
                ap (◌∷◌ (payload s.pb i)) (view-consume r laws action s i is t c.outside v cs ct)
                ∙ sym (append-nil _ ∙ ap (map (payload s.pb)) cs);
          })
  ]

  round-Balances :
      (s : PacketQueue r) (c : Round)
      → IsConfined (action_of c)
      → IsValid r laws s
      → Balances (view r laws s) (round r s c)
  unfolding round
  round-Balances s (pushes action) c v =
      log_push-Balances action s (try_push r action s) (try_push_fifo r laws action s c v)
        (try_push-IsValid r laws action s c v)
  round-Balances s (pops action) c v = log_pop-Balances action s c v

  pub round-IsValid :
      (s : PacketQueue r) (c : Round)
      → IsConfined (action_of c)
      → IsValid r laws s
      → IsValid r laws (round r s c).state
  round-IsValid s c h v = (round-Balances s c h v).valid

  history-Balances :
      (s : PacketQueue r) (cs : List Round)
      → All (λ c. IsConfined (action_of c)) cs
      → IsValid r laws s
      → Balances (view r laws s) (history r s cs)
  unfolding history
  history-Balances s [] h v = record { valid = v; flow = sym (append-nil _) }
  history-Balances s (c ∷ cs) h v =
      let now = round-Balances s c h.0 v in
      let later = history-Balances (round r s c).state cs h.1 now.valid in
      record {
        valid = later.valid;
        flow =
            append_assoc (round r s c).delivered _ _
            ∙ ap (◌++◌ (round r s c).delivered) later.flow
            ∙ sym (append_assoc (round r s c).delivered _ _)
            ∙ ap (λ xs. xs ++ (history r (round r s c).state cs).accepted) now.flow
            ∙ append_assoc (view r laws s) _ _;
      }

  -- In every interleaving of rounds of `push` and `pop` from a valid queue, with actions that write
  -- within their packets: what was delivered, followed by what is queued at the end, is what was
  -- queued at the start followed by what was accepted, packet by packet, in order and byte for byte.
  pub history_fifo :
      (s : PacketQueue r) (cs : List Round)
      → All (λ c. IsConfined (action_of c)) cs
      → IsValid r laws s
      → (history r s cs).delivered ++ view r laws (history r s cs).state
        ≡ view r laws s ++ (history r s cs).accepted
  history_fifo s cs h v = (history-Balances s cs h v).flow
