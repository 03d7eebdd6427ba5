-- ===== src/Listener/Loop.antt =====
-- src/listeners.cpp, Listener::runListener: the loop around `epoll_wait`. What `epoll_wait` returns
-- is the input of each round.
use tcp_udp_chat_server.Net.{Arrival}
use tcp_udp_chat_server.Mail.Types.{MessageType}
use tcp_udp_chat_server.Mail.Print.{Output}
use tcp_udp_chat_server.Listener.State.{Listener, PipeRead}
use tcp_udp_chat_server.Listener.Handlers.{
  Handled, listen_signal, listen_socket, listen_stdin, listen_to_send_pipe, send,
}
use tcp_udp_chat_server.Common.{
  Bool, List, Result, [], failed_to_listen, false, guard, if◌then◌else◌, leb_ℤ, minus_one, not, ok,
  pos, server_not_responding, throw, true, unknown_fd_type, ℕ, ℤ, ◌&&◌, ◌++◌, ◌+◌, ◌-ℤ◌, ◌>>=◌,
  ◌>>◌, ◌||◌, ◌∷◌,
}

-- `stop`, up to the joining of the thread.
unfoldable pub request_stop : Listener → Listener
request_stop l = record l { keep_running = false }

-- A ready descriptor, by the type that `fdMap` gives, with what reading it yields; `stray` is a
-- descriptor that the map does not hold.
pub data Event : Type 0 where
  stdin_ready : PipeRead → Event
  socket_ready : Arrival → Event
  to_send_ready : PipeRead → Event
  signal_ready : PipeRead → Event
  unknown_ready stray : Event

-- What `epoll_wait` returns: 0, -1, or the events.
pub data Wake : Type 0 where
  timed_out interrupted : Wake
  events : List Event → Wake

-- The condition of the `while`.
unfoldable pub goes_on : Listener → Bool
goes_on l = l.keep_running || (not l.sent_bye || not l.received_confirm)

-- The descriptor of the mails to send is watched while no CONFIRM is awaited.
unfoldable pub toggle_to_send : Listener → Listener
toggle_to_send l =
    if not l.received_confirm && l.to_send_registered
    then record l { to_send_registered = false }
    else if l.received_confirm && not l.to_send_registered
    then record l { to_send_registered = true }
    else l

-- The third argument of `epoll_wait`, with what the stop watch shows; negative is without end.
unfoldable pub wait_time : Listener → ℕ → ℤ
wait_time l elapsed = if not l.received_confirm then l.connection.timeout -ℤ elapsed else minus_one

abbrev pub Ran : Type 0
Ran = Listener × List Output

-- `if (!listen…(…)) throw …`
abbrev pub must : Result Handled → List Output → Result Ran
must r out = r >>= λ h. guard h.0 failed_to_listen >> ok (h.1, out ++ h.2)

unfoldable pub handle : MessageType → Event → Listener → List Output → Result Ran
handle junk (stdin_ready r) l out = must (listen_stdin junk r l) out
handle junk (socket_ready a) l out = must (listen_socket junk a l) out
handle junk (to_send_ready r) l out = must (listen_to_send_pipe r l) out
handle junk (signal_ready r) l out = must (listen_signal junk r l) out
handle junk unknown_ready l out = throw unknown_fd_type
handle junk stray l out = ok (l, out)

-- The `for` over the events.
unfoldable pub handle_all : MessageType → List Event → Listener → List Output → Result Ran
handle_all junk [] l out = ok (l, out)
handle_all junk (e ∷ es) l out = handle junk e l out >>= λ r. handle_all junk es r.0 r.1

-- `n == 0`: the mail is sent again, unless the retries are used up.
unfoldable pub retry : Listener → Result Listener
retry l =
    if leb_ℤ l.connection.retries (pos l.retries)
    then throw server_not_responding
    else send l.conf_mail (record l { retries = l.retries + 1 })

-- One round of the `while`, behind its test and the watching of the descriptor.
abbrev pub round_body : MessageType → Wake → Listener → Result Ran
round_body junk timed_out l = retry l >>= λ k. ok (k, [])
round_body junk interrupted l = ok (l, [])
round_body junk (events es) l = handle_all junk es l []

-- One round of the `while`, behind its test.
unfoldable pub loop_round : MessageType → Wake → Listener → Result Ran
loop_round junk w l = round_body junk w (toggle_to_send l)
