-- ===== src/Listener/Hang.antt =====
-- src/listeners.cpp, Listener::runListener and Listener::stop: the loop does not end without a BYE
-- of the client's own.
use tcp_udp_chat_server.Net.{send_data}
use tcp_udp_chat_server.Mail.Types.{MessageType}
use tcp_udp_chat_server.Mail.Print.{Output}
use tcp_udp_chat_server.Listener.State.{Listener}
use tcp_udp_chat_server.Listener.Loop.{
  request_stop, retry, Event, Wake, events, goes_on, handle, handle_all, interrupted, loop_round,
  must, signal_ready, socket_ready, stdin_ready, stray, timed_out, to_send_ready, toggle_to_send,
  unknown_ready,
}
use tcp_udp_chat_server.Listener.Handlers.{
  send, Handled, listen_signal, listen_socket, listen_stdin, listen_to_send_pipe,
}
use tcp_udp_chat_server.Listener.Ending.{
  Leaves, Leaves-NoBye, NoBye, listen_signal-Leaves, listen_socket-Leaves, listen_stdin-Leaves,
  listen_to_send_pipe-NoBye,
}
use tcp_udp_chat_server.Common.{
  >>=-eq-ok, Bool, List, Result, [], arith, false, if◌then◌else◌, ok, throw, true, ◌>>=◌, ◌∷◌, ◌≡◌,
}

pub must-eq-ok :
    (r : Result Handled) (out o : List Output) (k : Listener)
    → must r out ≡ ok (k, o)
    → (b : Bool) × (p : List Output) × (r ≡ ok (b, k, p))
must-eq-ok (ok (true, l, p)) out o k e = (true, p, ground arith)
must-eq-ok (ok (false, l, p)) out o k e = cc
must-eq-ok (throw x) out o k e = cc

must-nil :
    (r : Result Handled) (out o : List Output) (k : Listener)
    → must r out ≡ ok (k, o)
    → (o1 : List Output) × (must r [] ≡ ok (k, o1))
must-nil (throw x) out o k e = cc
must-nil (ok (false, l, p)) out o k e = cc
must-nil (ok (true, l, p)) out o k e = (p, ground arith)

-- What was printed before does not matter.
pub handle-nil :
    (junk : MessageType) (e : Event) (l k : Listener) (out o : List Output)
    → handle junk e l out ≡ ok (k, o)
    → (o1 : List Output) × (handle junk e l [] ≡ ok (k, o1))
unfolding handle
handle-nil junk (stdin_ready r) l k out o h = must-nil (listen_stdin junk r l) out o k h
handle-nil junk (socket_ready a) l k out o h = must-nil (listen_socket junk a l) out o k h
handle-nil junk (to_send_ready r) l k out o h = must-nil (listen_to_send_pipe r l) out o k h
handle-nil junk (signal_ready r) l k out o h = must-nil (listen_signal junk r l) out o k h
handle-nil junk unknown_ready l k out o h = cc
handle-nil junk stray l k out o h = ([], ground arith)

handle-NoBye :
    (junk : MessageType) (e : Event) (l k : Listener) (out o : List Output)
    → NoBye l
    → handle junk e l out ≡ ok (k, o)
    → NoBye k
unfolding handle
handle-NoBye junk (stdin_ready r) l k out o n h =
    let (b, p, q) = must-eq-ok (listen_stdin junk r l) out o k h in
    Leaves-NoBye l k n (listen_stdin-Leaves junk r l k b p q)
handle-NoBye junk (socket_ready a) l k out o n h =
    let (b, p, q) = must-eq-ok (listen_socket junk a l) out o k h in
    Leaves-NoBye l k n (listen_socket-Leaves junk a l k b p q)
handle-NoBye junk (to_send_ready r) l k out o n h =
    let (b, p, q) = must-eq-ok (listen_to_send_pipe r l) out o k h in
    listen_to_send_pipe-NoBye r l k b p n q
handle-NoBye junk (signal_ready r) l k out o n h =
    let (b, p, q) = must-eq-ok (listen_signal junk r l) out o k h in
    Leaves-NoBye l k n (listen_signal-Leaves junk r l k b p q)
handle-NoBye junk unknown_ready l k out o n h = cc
handle-NoBye junk stray l k out o n h = let same : k ≡ l = ground arith in rw same n

handle_all-NoBye :
    (junk : MessageType) (es : List Event) (l k : Listener) (out o : List Output)
    → NoBye l
    → handle_all junk es l out ≡ ok (k, o)
    → NoBye k
unfolding handle_all
handle_all-NoBye junk [] l k out o n h = let same : k ≡ l = ground arith in rw same n
handle_all-NoBye junk (e ∷ es) l k out o n h =
    let ((m, p), q, r) = >>=-eq-ok (handle junk e l out) _ h in
    handle_all-NoBye junk es m k p o (handle-NoBye junk e l m out p n q) r

pub toggle-Leaves : (l : Listener) → Leaves l (toggle_to_send l)
unfolding toggle_to_send
toggle-Leaves l = record { bye_is = ground arith; queue_is = ground arith }

pub retry-Leaves : (l k : Listener) → retry l ≡ ok k → Leaves l k
unfolding retry send send_data
retry-Leaves l k e = record { bye_is = ground arith; queue_is = ground arith }

toggle-NoBye : (l : Listener) → NoBye l → NoBye (toggle_to_send l)
toggle-NoBye l n = Leaves-NoBye l (toggle_to_send l) n (toggle-Leaves l)

loop_round-NoBye :
    (junk : MessageType) (w : Wake) (l k : Listener) (o : List Output)
    → NoBye l
    → loop_round junk w l ≡ ok (k, o)
    → NoBye k
unfolding loop_round
loop_round-NoBye junk (events es) l k o n h = handle_all-NoBye junk es _ k [] o (toggle-NoBye l n) h
loop_round-NoBye junk timed_out l k o n h =
    let (m, p, q) = >>=-eq-ok (retry (toggle_to_send l)) _ h in
    let same : k ≡ m = ground arith in
    rw same
      (Leaves-NoBye (toggle_to_send l) m (toggle-NoBye l n) (retry-Leaves (toggle_to_send l) m p))
loop_round-NoBye junk interrupted l k o n h =
    let same : k ≡ toggle_to_send l = ground arith in rw same (toggle-NoBye l n)

-- The rounds of the loop over what `epoll_wait` returns, as long as its condition holds.
unfoldable pub run_listener : MessageType → List Wake → Listener → Result Listener
run_listener junk [] l = ok l
run_listener junk (w ∷ ws) l =
    let rest = loop_round junk w l >>= λ r. run_listener junk ws r.0 in
    if goes_on l then rest else ok l

pub NoBye-goes_on : (l : Listener) → NoBye l → goes_on l ≡ true
unfolding goes_on
NoBye-goes_on l n = ground (arith, n.not_sent)

run_listener-NoBye :
    (junk : MessageType) (ws : List Wake) (l k : Listener)
    → NoBye l
    → run_listener junk ws l ≡ ok k
    → goes_on k ≡ true
unfolding run_listener
run_listener-NoBye junk [] l k n e = let same : k ≡ l = ground arith in rw same (NoBye-goes_on l n)
run_listener-NoBye junk (w ∷ ws) l k n e =
    let ((m, o), p, q) = >>=-eq-ok (loop_round junk w l) _ (rw (NoBye-goes_on l n) at e) in
    run_listener-NoBye junk ws m k (loop_round-NoBye junk w l m o n p) q

request_stop-NoBye : (l : Listener) → NoBye l → NoBye (request_stop l)
unfolding request_stop
request_stop-NoBye l n = record { not_sent = n.not_sent; none_waits = n.none_waits }

-- Where no BYE has been sent and none waits to be sent when `stop` clears `keepRunning`, the
-- condition of the loop still holds behind any rounds that succeed: `stop`, which then joins the
-- thread, waits for ever.
pub stop_hangs :
    (junk : MessageType) (ws : List Wake) (l k : Listener)
    → NoBye l
    → run_listener junk ws (request_stop l) ≡ ok k
    → goes_on k ≡ true
stop_hangs junk ws l k n e =
    run_listener-NoBye junk ws (request_stop l) k (request_stop-NoBye l n) e
