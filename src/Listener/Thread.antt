-- ===== src/Listener/Thread.antt =====
-- src/listeners.cpp, Listener::runListener: what becomes of the process where the loop ends or
-- throws.
use tcp_udp_chat_server.Mail.Types.{MessageType}
use tcp_udp_chat_server.Mail.Print.{Output, cerr, endl}
use tcp_udp_chat_server.Listener.State.{Listener}
use tcp_udp_chat_server.Listener.Retry.{
  Waits, resent, resent-Waits, round_gives_up, round_timed_out, timeouts, timeouts_give_up,
}
use tcp_udp_chat_server.Listener.Loop.{Wake, goes_on, timed_out}
use tcp_udp_chat_server.Listener.Hang.{run_listener}
use tcp_udp_chat_server.Common.{
  Result, ap, ◌∙◌, Bool-cases, Bytes, Error, List, [], arith, bad_variant_access, codes, false, inl,
  inr, ltb, not_a_number, number_out_of_range, ok, out_of_bounds, pos, refl, replicate,
  server_not_responding, suc, throw, true, usage_shown, zero, ℕ, ℤ, ◌++◌, ◌+◌, ◌∷◌, ◌≡◌,
}

-- The thread's function returns, or `exit` was called, or an exception was not caught, or the
-- behaviour is undefined.
pub data ThreadEnd : Type 0 where
  thread_over : Listener → ThreadEnd
  process_exits : ℤ → List Output → ThreadEnd
  process_aborts no_behaviour : ThreadEnd

-- The `catch` around the loop, which is for std::runtime_error. `what` is the text of an exception.
-- std::bad_variant_access, std::invalid_argument and std::out_of_range are none.
unfoldable pub caught_in_thread : (Error → Bytes) → Error → ThreadEnd
caught_in_thread what bad_variant_access = process_aborts
caught_in_thread what not_a_number = process_aborts
caught_in_thread what number_out_of_range = process_aborts
caught_in_thread what usage_shown = process_exits (pos 1) []
caught_in_thread what out_of_bounds = no_behaviour
caught_in_thread what problem =
    process_exits (pos 1) (cerr (codes "ERR: " ++ what problem ++ endl) ∷ [])

unfoldable pub thread_end : (Error → Bytes) → Result Listener → ThreadEnd
thread_end what (ok l) = thread_over l
thread_end what (throw problem) = caught_in_thread what problem

-- The loop inside of the `try`, by what the rounds wake up to.
abbrev pub listener_thread : (Error → Bytes) → MessageType → List Wake → Listener → ThreadEnd
listener_thread what junk ws l = thread_end what (run_listener junk ws l)

awaiting-goes_on : (l : Listener) → l.received_confirm ≡ false → goes_on l ≡ true
unfolding goes_on
awaiting-goes_on l w = ground arith

-- Rounds that only run into the timeout, while a CONFIRM is awaited: the condition of the loop
-- holds before each.
pub run_listener-timeouts :
    (junk : MessageType) (n limit : ℕ) (l : Listener)
    → Waits limit l
    → run_listener junk (replicate n timed_out) l ≡ timeouts junk n l
unfolding run_listener timeouts
run_listener-timeouts junk zero limit l w = refl
run_listener-timeouts junk (suc n) limit l w =
    rw (awaiting-goes_on l w.waiting) (elim (Bool-cases (ltb l.retries limit)) [
      | inl more ↦
          let again = round_timed_out junk l limit w.waiting w.limit_is w.can_send (ground arith) in
          rw again (run_listener-timeouts junk n limit (resent l) (resent-Waits limit l w))
      | inr none_left ↦
          let over = round_gives_up junk l limit w.limit_is (ground arith) in rw over refl
    ])

-- The thread of a listener that waits in vain.
pub thread_gives_up :
    (what : Error → Bytes) (junk : MessageType) (n limit : ℕ) (l : Listener)
    → Waits limit l
    → l.retries + n ≡ limit
    → listener_thread what junk (replicate (suc n) timed_out) l
      ≡ process_exits (pos 1) (cerr (codes "ERR: " ++ what server_not_responding ++ endl) ∷ [])
unfolding thread_end caught_in_thread
thread_gives_up what junk n limit l w h =
    ap (thread_end what)
      (run_listener-timeouts junk (suc n) limit l w ∙ timeouts_give_up junk n limit l w h)
