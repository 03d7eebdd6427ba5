-- ===== src/StdinListener/Rounds.antt =====
-- src/listeners.cpp, StdinListener::runListener. What `select` and `std::getline` give is the input
-- of each round; the input ends where `keepRunning` is cleared.
use tcp_udp_chat_server.Pipe.{Pipe, write}
use tcp_udp_chat_server.Common.{
  eq_ℤ, failed_to_write_pipe, if◌then◌else◌, minus_one, throw, ◌||◌, Bytes, List, Result, [], codes,
  ok, ◌++◌, ◌>>=◌, ◌∷◌,
}

-- `select` fails, runs into its timeout, or finds input: a line, without its end, or no more.
pub data Typed : Type 0 where
  select_failed no_input end_of_input : Typed
  typed_line : Bytes → Typed

-- The bytes that go through the pipe for one line.
abbrev pub with_newline : Bytes → Bytes
with_newline l = l ++ b'\n' ∷ []

-- `write(writeSignalFd, "1", 1)`, here and in Listener::handleSignal.
unfoldable pub write_signal : Pipe → Result Pipe
write_signal p =
    if eq_ℤ p.write_fd minus_one || p.write_fails
    then throw failed_to_write_pipe
    else ok (record p { written = p.written ++ codes "1" })

-- `runListener`: the pipe of the lines, and that of the signal.
unfoldable pub run_stdin : List Typed → Pipe → Pipe → Result (Pipe × Pipe)
run_stdin [] pipe signal = ok (pipe, signal)
run_stdin (select_failed ∷ rest) pipe signal = ok (pipe, signal)
run_stdin (no_input ∷ rest) pipe signal = run_stdin rest pipe signal
run_stdin (end_of_input ∷ rest) pipe signal = write_signal signal >>= λ q. ok (pipe, q)
run_stdin (typed_line l ∷ rest) pipe signal =
    write pipe (with_newline l) >>= λ q. run_stdin rest q signal
