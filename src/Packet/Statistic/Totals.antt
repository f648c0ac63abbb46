-- ===== src/Packet/Statistic/Totals.antt =====
-- What the totals of packet_statistic.hpp add up to.
use tunator.Prelude.{ℕ, ◌<◌, ◌≡◌, ◌↔◌, refl, ap, ◌∙◌, List, [], ◌∷◌, arith, u64, add64}
use tunator.Packet.Statistic.{
  Data, PacketStatistic, data_init, inc_alloc_failed, inc_alloc_ok, inc_push_action_failed,
  inc_push_timeout, inc_pop_timeout, inc_pop_action_failed, add_push_packet_size,
  add_pop_packet_size, inc_push_ok, inc_pop_ok, inc_pop_empty, inc_push_failed, add_data, collect,
  report_twice,
}

-- One call of a method that changes a statistic.
pub data Event : Type 0 where
  alloc_failed alloc_ok push_action_failed push_timeout pop_timeout pop_action_failed : Event
  push_packet_size pop_packet_size : ℕ → Event
  push_ok pop_ok pop_empty push_failed : Event
  collected : ℕ → Event

unfoldable pub event : PacketStatistic → Event → PacketStatistic
unfolding collect inc_alloc_failed inc_alloc_ok inc_push_action_failed inc_push_timeout
    inc_pop_timeout inc_pop_action_failed add_push_packet_size add_pop_packet_size inc_push_ok
    inc_pop_ok inc_pop_empty inc_push_failed
event s alloc_failed = inc_alloc_failed s
event s alloc_ok = inc_alloc_ok s
event s push_action_failed = inc_push_action_failed s
event s push_timeout = inc_push_timeout s
event s pop_timeout = inc_pop_timeout s
event s pop_action_failed = inc_pop_action_failed s
event s (push_packet_size n) = add_push_packet_size s n
event s (pop_packet_size n) = add_pop_packet_size s n
event s push_ok = inc_push_ok s
event s pop_ok = inc_pop_ok s
event s pop_empty = inc_pop_empty s
event s push_failed = inc_push_failed s
event s (collected now) = (collect now s).1

pub events : PacketStatistic → List Event → PacketStatistic
events s [] = s
events s (e ∷ es) = events (event s e) es

-- What one event adds to each counter; `collect` adds nothing.
abbrev pub worth : Event → Data
worth alloc_failed = record data_init { alloc_failed = 1 }
worth alloc_ok = record data_init { alloc_ok = 1 }
worth push_action_failed = record data_init { push_action_failed = 1 }
worth push_timeout = record data_init { push_timeout = 1 }
worth pop_timeout = record data_init { pop_timeout = 1 }
worth pop_action_failed = record data_init { pop_action_failed = 1 }
worth (push_packet_size n) = record data_init { push_packet_size = n }
worth (pop_packet_size n) = record data_init { pop_packet_size = n }
worth push_ok = record data_init { push_ok = 1 }
worth pop_ok = record data_init { pop_ok = 1 }
worth pop_empty = record data_init { pop_empty = 1 }
worth push_failed = record data_init { push_failed = 1 }
worth (collected now) = data_init

abbrev pub worth_all : Data → List Event → Data
worth_all d [] = d
worth_all d (e ∷ es) = worth_all (add_data d (worth e)) es

-- All that was ever counted: the total with the current period.
abbrev pub grand : PacketStatistic → Data
grand s = add_data s.total s.current

word_cancel : (t c : ℕ) → t < u64 → c < u64 → add64 t c ≡ t → c ≡ 0
word_cancel t c ht hc e = omega arith

record SameData (a b : Data) : Type 0 where
  alloc_failed : a.alloc_failed ≡ b.alloc_failed
  alloc_ok : a.alloc_ok ≡ b.alloc_ok
  push_action_failed : a.push_action_failed ≡ b.push_action_failed
  pop_action_failed : a.pop_action_failed ≡ b.pop_action_failed
  push_timeout : a.push_timeout ≡ b.push_timeout
  pop_timeout : a.pop_timeout ≡ b.pop_timeout
  push_packet_size : a.push_packet_size ≡ b.push_packet_size
  pop_packet_size : a.pop_packet_size ≡ b.pop_packet_size
  push_ok : a.push_ok ≡ b.push_ok
  pop_ok : a.pop_ok ≡ b.pop_ok
  pop_empty : a.pop_empty ≡ b.pop_empty
  push_failed : a.push_failed ≡ b.push_failed

Data-path : {a b : Data} → SameData a b → a ≡ b
Data-path p = λ i. record {
  alloc_failed = p.alloc_failed i;
  alloc_ok = p.alloc_ok i;
  push_action_failed = p.push_action_failed i;
  pop_action_failed = p.pop_action_failed i;
  push_timeout = p.push_timeout i;
  pop_timeout = p.pop_timeout i;
  push_packet_size = p.push_packet_size i;
  pop_packet_size = p.pop_packet_size i;
  push_ok = p.push_ok i;
  pop_ok = p.pop_ok i;
  pop_empty = p.pop_empty i;
  push_failed = p.push_failed i;
}

event-grand : (s : PacketStatistic) (e : Event) → grand (event s e) ≡ add_data (grand s) (worth e)
unfolding event add_data
event-grand s alloc_failed = Data-path (omega arith)
event-grand s _ = Data-path (omega arith)

-- A history of calls from state `s` leaves in the total and the current period together what `s`
-- had and what the calls counted, modulo 2 ^ 64 and wherever `collect` was called in between.
pub events-grand :
    (s : PacketStatistic) (es : List Event) → grand (events s es) ≡ worth_all (grand s) es
unfolding events
events-grand s [] = refl
events-grand s (e ∷ es) = events-grand (event s e) es ∙ ap_worth es (event-grand s e)
  where
    ap_worth : (fs : List Event) {d d' : Data} → d ≡ d' → worth_all d fs ≡ worth_all d' fs
    ap_worth fs p = λ i. worth_all (p i) fs

-- Each counter is a `size_t`.
pub record IsWords (d : Data) : Type 0 where
  pub alloc_failed : d.alloc_failed < u64
  pub alloc_ok : d.alloc_ok < u64
  pub push_action_failed : d.push_action_failed < u64
  pub pop_action_failed : d.pop_action_failed < u64
  pub push_timeout : d.push_timeout < u64
  pub pop_timeout : d.pop_timeout < u64
  pub push_packet_size : d.push_packet_size < u64
  pub pop_packet_size : d.pop_packet_size < u64
  pub push_ok : d.push_ok < u64
  pub pop_ok : d.pop_ok < u64
  pub pop_empty : d.pop_empty < u64
  pub push_failed : d.push_failed < u64

add_data_cancel :
    (t c : Data) → IsWords t → IsWords c → SameData (add_data t c) t → SameData c data_init
unfolding add_data
add_data_cancel t c ht hc e = record {
  alloc_failed =
      word_cancel t.alloc_failed c.alloc_failed ht.alloc_failed hc.alloc_failed e.alloc_failed;
  alloc_ok = word_cancel t.alloc_ok c.alloc_ok ht.alloc_ok hc.alloc_ok e.alloc_ok;
  push_action_failed =
      word_cancel t.push_action_failed c.push_action_failed ht.push_action_failed
        hc.push_action_failed e.push_action_failed;
  pop_action_failed =
      word_cancel t.pop_action_failed c.pop_action_failed ht.pop_action_failed hc.pop_action_failed
        e.pop_action_failed;
  push_timeout =
      word_cancel t.push_timeout c.push_timeout ht.push_timeout hc.push_timeout e.push_timeout;
  pop_timeout = word_cancel t.pop_timeout c.pop_timeout ht.pop_timeout hc.pop_timeout e.pop_timeout;
  push_packet_size =
      word_cancel t.push_packet_size c.push_packet_size ht.push_packet_size hc.push_packet_size
        e.push_packet_size;
  pop_packet_size =
      word_cancel t.pop_packet_size c.pop_packet_size ht.pop_packet_size hc.pop_packet_size
        e.pop_packet_size;
  push_ok = word_cancel t.push_ok c.push_ok ht.push_ok hc.push_ok e.push_ok;
  pop_ok = word_cancel t.pop_ok c.pop_ok ht.pop_ok hc.pop_ok e.pop_ok;
  pop_empty = word_cancel t.pop_empty c.pop_empty ht.pop_empty hc.pop_empty e.pop_empty;
  push_failed = word_cancel t.push_failed c.push_failed ht.push_failed hc.push_failed e.push_failed;
}

add_data_zero : (t : Data) → IsWords t → SameData (add_data t data_init) t
unfolding add_data
add_data_zero t ht = omega arith

same_of_path : {a b : Data} → a ≡ b → SameData a b
same_of_path p = record {
  alloc_failed = ap (λ (d : Data). d.alloc_failed) p;
  alloc_ok = ap (λ (d : Data). d.alloc_ok) p;
  push_action_failed = ap (λ (d : Data). d.push_action_failed) p;
  pop_action_failed = ap (λ (d : Data). d.pop_action_failed) p;
  push_timeout = ap (λ (d : Data). d.push_timeout) p;
  pop_timeout = ap (λ (d : Data). d.pop_timeout) p;
  push_packet_size = ap (λ (d : Data). d.push_packet_size) p;
  pop_packet_size = ap (λ (d : Data). d.pop_packet_size) p;
  push_ok = ap (λ (d : Data). d.push_ok) p;
  pop_ok = ap (λ (d : Data). d.pop_ok) p;
  pop_empty = ap (λ (d : Data). d.pop_empty) p;
  push_failed = ap (λ (d : Data). d.push_failed) p;
}

add_data-IsWords : (t c : Data) → IsWords (add_data t c)
unfolding add_data
add_data-IsWords t c = omega arith

-- What `TunDevice::asJson` prints for a queue, compared with the queue's own totals afterwards: the
-- printed totals have the period that has just ended added once more, modulo 2 ^ 64, and so agree
-- with the queue's exactly if that period counted nothing.
pub report_twice_total :
    (now later : ℕ) (s : PacketStatistic)
    → IsWords s.current
    → let (printed, s') = report_twice now later s in
      (printed.total ≡ add_data s'.total s.current)
      × (s'.total ≡ grand s)
      × ((printed.total ≡ s'.total) ↔ (s.current ≡ data_init))
unfolding report_twice
report_twice_total now later s hc = (refl, refl, (only, if_nothing))
  where
    t : Data
    t = grand s

    only : add_data t s.current ≡ t → s.current ≡ data_init
    only e =
        Data-path
          (add_data_cancel t s.current (add_data-IsWords s.total s.current) hc (same_of_path e))

    if_nothing : s.current ≡ data_init → add_data t s.current ≡ t
    if_nothing e =
        ap (add_data t) e ∙ Data-path (add_data_zero t (add_data-IsWords s.total s.current))
