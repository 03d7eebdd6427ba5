-- ===== src/StdinListener/Stop.antt =====
-- src/listeners.cpp, class StdinListener: its members, and the end of its thread.
use tcp_udp_chat_server.StdinListener.Rounds.{
  run_stdin, Typed, end_of_input, no_input, select_failed, typed_line, with_newline, write_signal,
}
use tcp_udp_chat_server.Pipe.{Pipe, write}
use tcp_udp_chat_server.Common.{
  throw, map, refl, ◌++◌, Bool, List, Result, [], false, if◌then◌else◌, ok, true, ◌>>=◌, ◌∷◌, ◌≡◌,
}

-- The members, but for the thread.
pub record StdinListener : Type 0 where
  pub pipe : Pipe
  pub keep_running : Bool

-- The constructor, which starts the thread.
unfoldable pub make_stdin_listener : Pipe → StdinListener
make_stdin_listener pipe = record { pipe = pipe; keep_running = true }

-- `stop`, and the destructor while the thread can be joined, up to the joining of the thread.
unfoldable pub stop_stdin : StdinListener → StdinListener
stop_stdin l = record l { keep_running = false }

-- What happens to the thread: `stop` is called, or `select` returns in a round.
pub data Happening : Type 0 where
  stop_called : Happening
  selected : Typed → Happening

-- One round of the `while`, behind its test: the listener and the pipe of the signal, and whether
-- the loop goes on.
unfoldable pub stdin_round : Typed → StdinListener → Pipe → Result (StdinListener × Pipe × Bool)
stdin_round select_failed l signal = ok (l, signal, false)
stdin_round no_input l signal = ok (l, signal, true)
stdin_round end_of_input l signal = write_signal signal >>= λ q. ok (l, q, false)
stdin_round (typed_line line) l signal =
    write l.pipe (with_newline line) >>= λ q. ok (record l { pipe = q }, signal, true)

-- The `while`: the test, and a round.
unfoldable pub run_thread : List Happening → StdinListener → Pipe → Result (StdinListener × Pipe)
run_thread [] l signal = ok (l, signal)
run_thread (stop_called ∷ rest) l signal = run_thread rest (stop_stdin l) signal
run_thread (selected t ∷ rest) l signal =
    let after =
      (stdin_round t l signal >>= λ r.
      let more = run_thread rest r.0 r.1 in if r.2 then more else ok (r.0, r.1)) in
    if l.keep_running then after else ok (l, signal)

-- The two pipes that are left.
abbrev pub pipes_of : Result (StdinListener × Pipe) → Result (Pipe × Pipe)
pipes_of (throw problem) = throw problem
pipes_of (ok (l, signal)) = ok (l.pipe, signal)

-- The rest of a round behind a write.
behind_write :
    (r : Result Pipe) (made : Pipe → StdinListener × Pipe × Bool)
    (rest : StdinListener × Pipe × Bool → Result (StdinListener × Pipe))
    (next : Pipe → Result (Pipe × Pipe))
    → ((q : Pipe) → pipes_of (rest (made q)) ≡ next q)
    → pipes_of (r >>= (λ q. ok (made q)) >>= rest) ≡ (r >>= next)
behind_write (throw problem) made rest next h = refl
behind_write (ok q) made rest next h = h q

stopped_ends :
    (after : List Happening) (l : StdinListener) (signal : Pipe)
    → l.keep_running ≡ false
    → pipes_of (run_thread after l signal) ≡ ok (l.pipe, signal)
unfolding run_thread stop_stdin
stopped_ends [] l signal k = refl
stopped_ends (stop_called ∷ rest) l signal k = stopped_ends rest (stop_stdin l) signal refl
stopped_ends (selected t ∷ rest) l signal k = rw k refl

-- Whatever happens behind a call of `stop`, the thread that the constructor starts has written into
-- the two pipes what the rounds before the call make it write, and throws as they do.
pub run_thread-run_stdin :
    (before : List Typed) (after : List Happening) (pipe signal : Pipe)
    → pipes_of
        (run_thread (map selected before ++ stop_called ∷ after) (make_stdin_listener pipe) signal)
      ≡ run_stdin before pipe signal
unfolding run_thread stdin_round run_stdin stop_stdin make_stdin_listener
run_thread-run_stdin [] after pipe signal =
    stopped_ends after (stop_stdin (make_stdin_listener pipe)) signal refl
run_thread-run_stdin (select_failed ∷ rest) after pipe signal = refl
run_thread-run_stdin (no_input ∷ rest) after pipe signal =
    run_thread-run_stdin rest after pipe signal
run_thread-run_stdin (end_of_input ∷ rest) after pipe signal =
    behind_write (write_signal signal) _ _ _ (λ q. refl)
run_thread-run_stdin (typed_line line ∷ rest) after pipe signal =
    behind_write (write pipe (with_newline line)) _ _ _
      (λ q. run_thread-run_stdin rest after q signal)
