-- ===== src/Packet/Statistic.antt =====
-- packet_statistic.hpp: twelve counters for the current period, and their totals.
pub mod Totals
use tunator.Prelude.{ℕ, u64, add64}

pub record Data : Type 0 where
  pub alloc_failed : ℕ
  pub alloc_ok : ℕ
  pub push_action_failed : ℕ
  pub pop_action_failed : ℕ
  pub push_timeout : ℕ
  pub pop_timeout : ℕ
  pub push_packet_size : ℕ
  pub pop_packet_size : ℕ
  pub push_ok : ℕ
  pub pop_ok : ℕ
  pub pop_empty : ℕ
  pub push_failed : ℕ

abbrev pub data_init : Data
data_init = record {
  alloc_failed = 0;
  alloc_ok = 0;
  push_action_failed = 0;
  pop_action_failed = 0;
  push_timeout = 0;
  pop_timeout = 0;
  push_packet_size = 0;
  pop_packet_size = 0;
  push_ok = 0;
  pop_ok = 0;
  pop_empty = 0;
  push_failed = 0;
}

-- `started` is a reading of the system clock.
pub record PacketStatistic : Type 0 where
  pub started : ℕ
  pub current : Data
  pub total : Data

unfoldable pub statistic_init : ℕ → PacketStatistic
statistic_init now = record { started = now; current = data_init; total = data_init }

module _ (s : PacketStatistic) where
  unfoldable pub inc_alloc_failed : PacketStatistic
  inc_alloc_failed =
      let c = s.current in record s { current = record c { alloc_failed = add64 c.alloc_failed 1 } }

  unfoldable pub inc_alloc_ok : PacketStatistic
  inc_alloc_ok =
      let c = s.current in record s { current = record c { alloc_ok = add64 c.alloc_ok 1 } }

  unfoldable pub inc_push_action_failed : PacketStatistic
  inc_push_action_failed =
      let c = s.current in
      record s { current = record c { push_action_failed = add64 c.push_action_failed 1 } }

  unfoldable pub inc_push_timeout : PacketStatistic
  inc_push_timeout =
      let c = s.current in record s { current = record c { push_timeout = add64 c.push_timeout 1 } }

  unfoldable pub inc_pop_timeout : PacketStatistic
  inc_pop_timeout =
      let c = s.current in record s { current = record c { pop_timeout = add64 c.pop_timeout 1 } }

  unfoldable pub inc_pop_action_failed : PacketStatistic
  inc_pop_action_failed =
      let c = s.current in
      record s { current = record c { pop_action_failed = add64 c.pop_action_failed 1 } }

  unfoldable pub add_push_packet_size : ℕ → PacketStatistic
  add_push_packet_size pbs =
      let c = s.current in
      record s { current = record c { push_packet_size = add64 c.push_packet_size pbs } }

  unfoldable pub add_pop_packet_size : ℕ → PacketStatistic
  add_pop_packet_size pbs =
      let c = s.current in
      record s { current = record c { pop_packet_size = add64 c.pop_packet_size pbs } }

  unfoldable pub inc_push_ok : PacketStatistic
  inc_push_ok = let c = s.current in record s { current = record c { push_ok = add64 c.push_ok 1 } }

  unfoldable pub inc_pop_ok : PacketStatistic
  inc_pop_ok = let c = s.current in record s { current = record c { pop_ok = add64 c.pop_ok 1 } }

  unfoldable pub inc_pop_empty : PacketStatistic
  inc_pop_empty =
      let c = s.current in record s { current = record c { pop_empty = add64 c.pop_empty 1 } }

  unfoldable pub inc_push_failed : PacketStatistic
  inc_push_failed =
      let c = s.current in record s { current = record c { push_failed = add64 c.push_failed 1 } }

-- `total += current`, field by field.
unfoldable pub add_data : Data → Data → Data
add_data t c = record {
  alloc_failed = add64 t.alloc_failed c.alloc_failed;
  alloc_ok = add64 t.alloc_ok c.alloc_ok;
  push_action_failed = add64 t.push_action_failed c.push_action_failed;
  pop_action_failed = add64 t.pop_action_failed c.pop_action_failed;
  push_timeout = add64 t.push_timeout c.push_timeout;
  pop_timeout = add64 t.pop_timeout c.pop_timeout;
  push_packet_size = add64 t.push_packet_size c.push_packet_size;
  pop_packet_size = add64 t.pop_packet_size c.pop_packet_size;
  push_ok = add64 t.push_ok c.push_ok;
  pop_ok = add64 t.pop_ok c.pop_ok;
  pop_empty = add64 t.pop_empty c.pop_empty;
  push_failed = add64 t.push_failed c.push_failed;
}

-- The report, and the statistic that is left: a new period begins at `now`.
unfoldable pub collect : ℕ → PacketStatistic → PacketStatistic × PacketStatistic
unfolding add_data statistic_init
collect now s =
    let ret = statistic_init now in
    let total' = add_data s.total s.current in
    (
      record { started = s.started; current = s.current; total = total' },
      record { started = ret.started; current = ret.current; total = total' },
    )

-- What `TunDevice::asJson` prints for a queue: the report of `getStatistic()` is collected again.
-- The result is that second report, and the statistic of the queue.
unfoldable pub report_twice : ℕ → ℕ → PacketStatistic → PacketStatistic × PacketStatistic
unfolding collect
report_twice now later s =
    let (ret, s') = collect now s in let (again, _) = collect later ret in (again, s')
