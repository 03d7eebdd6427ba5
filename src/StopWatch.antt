-- ===== src/StopWatch.antt =====
-- src/headers/stopwatch.h. A time point is its milliseconds, and each call that reads the clock is
-- given what the clock shows.
use tcp_udp_chat_server.Common.{Bool, false, if◌then◌else◌, true, ℕ, ◌-◌}

pub record StopWatch : Type 0 where
  pub start_time : ℕ
  pub end_time : ℕ
  pub is_stopped : Bool

unfoldable pub make_stop_watch : ℕ → StopWatch
make_stop_watch now = record { start_time = now; end_time = now; is_stopped = false }

unfoldable pub start : ℕ → StopWatch → StopWatch
start now w = record w { start_time = now; is_stopped = false }

unfoldable pub stop : ℕ → StopWatch → StopWatch
stop now w = record w { end_time = now; is_stopped = true }

unfoldable pub reset : ℕ → StopWatch → StopWatch
reset now w = record w { start_time = now; end_time = now }

-- `duration`, which also moves the end of a watch that runs; the clock is steady.
unfoldable pub duration : ℕ → StopWatch → ℕ × StopWatch
duration now w =
    let v = if w.is_stopped then w else record w { end_time = now } in
    (v.end_time - v.start_time, v)
