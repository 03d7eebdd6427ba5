-- ===== src/Listener/StopAndWait.antt =====
-- src/listeners.cpp, Listener::runListener: while a CONFIRM is awaited, no further mail is taken
-- from the queue.
use tcp_udp_chat_server.Mail.Types.{MessageType}
use tcp_udp_chat_server.Mail.Print.{Output}
use tcp_udp_chat_server.Listener.State.{Listener}
use tcp_udp_chat_server.Listener.Loop.{
  Event, Wake, events, handle, handle_all, interrupted, loop_round, retry, signal_ready,
  socket_ready, stdin_ready, stray, timed_out, to_send_ready, toggle_to_send, unknown_ready,
}
use tcp_udp_chat_server.Listener.Hang.{must-eq-ok, retry-Leaves, toggle-Leaves}
use tcp_udp_chat_server.Listener.Handlers.{listen_signal, listen_socket, listen_stdin}
use tcp_udp_chat_server.Listener.Ending.{
  Leaves, listen_signal-Leaves, listen_socket-Leaves, listen_stdin-Leaves,
}
use tcp_udp_chat_server.Common.{
  >>=-eq-ok, Bool, List, [], all, arith, false, ok, refl, true, ◌∙◌, ◌∷◌, ◌≡◌,
}

-- The events that `epoll_wait` can give: the queue's descriptor only while it is watched.
unfoldable pub is_watched : Listener → Event → Bool
is_watched l (to_send_ready r) = l.to_send_registered
is_watched l _ = true

unfoldable pub all_watched : Listener → Wake → Bool
all_watched l (events es) = all (is_watched (toggle_to_send l)) es
all_watched l _ = true

pub Leaves-refl : (l : Listener) → Leaves l l
Leaves-refl l = record { bye_is = refl; queue_is = refl }

pub Leaves-trans : (l m k : Listener) → Leaves l m → Leaves m k → Leaves l k
Leaves-trans l m k a b = record { bye_is = b.bye_is ∙ a.bye_is; queue_is = b.queue_is ∙ a.queue_is }

handle-Leaves :
    (junk : MessageType) (w : Listener) (e : Event) (l k : Listener) (out o : List Output)
    → w.to_send_registered ≡ false
    → is_watched w e ≡ true
    → handle junk e l out ≡ ok (k, o)
    → Leaves l k
unfolding handle is_watched
handle-Leaves junk w (stdin_ready r) l k out o u i h =
    let (b, p, q) = must-eq-ok (listen_stdin junk r l) out o k h in
    listen_stdin-Leaves junk r l k b p q
handle-Leaves junk w (socket_ready a) l k out o u i h =
    let (b, p, q) = must-eq-ok (listen_socket junk a l) out o k h in
    listen_socket-Leaves junk a l k b p q
handle-Leaves junk w (to_send_ready r) l k out o u i h = cc
handle-Leaves junk w (signal_ready r) l k out o u i h =
    let (b, p, q) = must-eq-ok (listen_signal junk r l) out o k h in
    listen_signal-Leaves junk r l k b p q
handle-Leaves junk w unknown_ready l k out o u i h = cc
handle-Leaves junk w stray l k out o u i h =
    let same : k ≡ l = ground arith in rw same (Leaves-refl l)

handle_all-Leaves :
    (junk : MessageType) (w : Listener) (es : List Event) (l k : Listener) (out o : List Output)
    → w.to_send_registered ≡ false
    → all (is_watched w) es ≡ true
    → handle_all junk es l out ≡ ok (k, o)
    → Leaves l k
unfolding handle_all all
handle_all-Leaves junk w [] l k out o u a h =
    let same : k ≡ l = ground arith in rw same (Leaves-refl l)
handle_all-Leaves junk w (e ∷ es) l k out o u a h =
    let ((m, p), q, r) = >>=-eq-ok (handle junk e l out) _ h in
    Leaves-trans l m k (handle-Leaves junk w e l m out p u (ground arith) q)
      (handle_all-Leaves junk w es m k p o u (ground arith) r)

-- A round that begins while a CONFIRM is awaited, where it returns and `epoll_wait` gives no
-- descriptor that is not watched: it takes no mail from the queue of the mails to send, and sentBye
-- stays.
pub loop_round-Leaves :
    (junk : MessageType) (w : Wake) (l k : Listener) (o : List Output)
    → l.received_confirm ≡ false
    → all_watched l w ≡ true
    → loop_round junk w l ≡ ok (k, o)
    → Leaves l k
unfolding loop_round all_watched
loop_round-Leaves junk (events es) l k o c a h =
    let off : (toggle_to_send l).to_send_registered ≡ false =
      unfold toggle_to_send in ground arith in
    Leaves-trans l (toggle_to_send l) k (toggle-Leaves l)
      (handle_all-Leaves junk (toggle_to_send l) es (toggle_to_send l) k [] o off a h)
loop_round-Leaves junk timed_out l k o c a h =
    let (m, p, q) = >>=-eq-ok (retry (toggle_to_send l)) _ h in
    let same : k ≡ m = ground arith in
    rw same
      (Leaves-trans l (toggle_to_send l) m (toggle-Leaves l) (retry-Leaves (toggle_to_send l) m p))
loop_round-Leaves junk interrupted l k o c a h =
    let same : k ≡ toggle_to_send l = ground arith in rw same (toggle-Leaves l)
