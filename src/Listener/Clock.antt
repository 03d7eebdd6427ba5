-- ===== src/Listener/Clock.antt =====
-- src/listeners.cpp, Listener::runListener with src/headers/stopwatch.h: how long a round waits for
-- the CONFIRM.
use tcp_udp_chat_server.StopWatch.{StopWatch, duration, start, stop}
use tcp_udp_chat_server.Listener.State.{Listener}
use tcp_udp_chat_server.Listener.Loop.{wait_time}
use tcp_udp_chat_server.Common.{
  arith, false, pos, refl, suc, zero, ℕ, ℤ, ◌*◌, ◌+◌, ◌-ℤ◌, ◌-◌, ◌∙◌, ◌≡◌, ◌<◌,
}

-- One wait of the loop: the watch is started, `epoll_wait` returns, and the watch is stopped.
unfoldable pub waited : ℕ → ℕ → StopWatch → StopWatch
waited began woken w = stop woken (start began w)

-- The timeout that the next `epoll_wait` is given.
unfoldable pub next_timeout : Listener → ℕ → StopWatch → ℤ
next_timeout l now w = wait_time l (duration now w).0

-- `n` waits from `began` on, each ended by an event after `d` milliseconds.
unfoldable pub events_every : ℕ → ℕ → ℕ → StopWatch → StopWatch
events_every zero d began w = w
events_every (suc n) d began w = events_every n d (began + d) (waited began (began + d) w)

-- The watch shows the last wait, and that alone.
waited-duration :
    (began woken now : ℕ) (w : StopWatch) → (duration now (waited began woken w)).0 ≡ woken - began
unfolding waited start stop duration
waited-duration began woken now w = refl

events_every-duration :
    (n d began now : ℕ) (w : StopWatch) → (duration now (events_every (suc n) d began w)).0 ≡ d
unfolding events_every
events_every-duration zero d began now w = waited-duration began (began + d) now w ∙ omega arith
events_every-duration (suc n) d began now w =
    events_every-duration n d (began + d) now (waited began (began + d) w)

-- While a CONFIRM is awaited with a timeout of `limit` ms, and some event, of whatever kind, ends
-- each wait after `d` ms, where 2 * d is below `limit`: behind any number of such waits, however
-- long ago the mail was sent, the next wait is again `limit` less `d` ms, which is longer than `d`.
pub events_put_off_retry :
    (l : Listener) (limit n d began now : ℕ) (w : StopWatch)
    → l.received_confirm ≡ false
    → l.connection.timeout ≡ pos limit
    → 2 * d < limit
    → (next_timeout l now (events_every (suc n) d began w) ≡ pos (limit - d)) × (d < limit - d)
unfolding next_timeout wait_time ◌-ℤ◌
events_put_off_retry l limit n d began now w r t h =
    let shown = events_every-duration n d began now w in
    (rw (shown, r, t) (ground arith), omega arith)
