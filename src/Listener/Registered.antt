-- ===== src/Listener/Registered.antt =====
-- src/listeners.cpp, Listener::runListener: only the top of a round changes `toSendRegistered`.
use tcp_udp_chat_server.Net.{Arrival, receive_data, send_data}
use tcp_udp_chat_server.MailBox.Wire.{write_mail_buffer}
use tcp_udp_chat_server.MailBox.Local.{write_mail_type}
use tcp_udp_chat_server.Mail.Types.{Mail, MessageType, new_mail}
use tcp_udp_chat_server.Mail.Print.{Output}
use tcp_udp_chat_server.Listener.State.{Listener, PipeRead, at_eof, broken, chunk, try_again}
use tcp_udp_chat_server.Listener.Loop.{
  Event, Wake, events, handle, handle_all, retry, interrupted, round_body, signal_ready,
  socket_ready, stdin_ready, stray, timed_out, to_send_ready, unknown_ready,
}
use tcp_udp_chat_server.Listener.Hears.{listen_signal-same, listen_stdin-same}
use tcp_udp_chat_server.Listener.Hang.{must-eq-ok}
use tcp_udp_chat_server.Listener.Handlers.{
  await_confirm, dispatch_udp, listen_signal, listen_socket, listen_stdin, listen_to_send_pipe,
  note_bye, note_failure, on_confirm, on_other, on_reply, receive_mail, send, send_outgoing,
  set_srv_msg_id,
}
use tcp_udp_chat_server.Common.{
  >>=-eq-ok, Bool, List, [], ap, arith, failed_to_receive, false, guard, ok, refl, true, ◌∙◌, ◌∷◌,
  ◌≡◌,
}

listen_stdin-registered :
    (junk : MessageType) (r : PipeRead) (l k : Listener) (b : Bool) (o : List Output)
    → listen_stdin junk r l ≡ ok (b, k, o)
    → k.to_send_registered ≡ l.to_send_registered
listen_stdin-registered junk r l k b o e =
    let same = listen_stdin-same junk r l k b o e in
    ap (λ (m : Listener). m.to_send_registered) same

listen_signal-registered :
    (junk : MessageType) (r : PipeRead) (l k : Listener) (b : Bool) (o : List Output)
    → listen_signal junk r l ≡ ok (b, k, o)
    → k.to_send_registered ≡ l.to_send_registered
listen_signal-registered junk r l k b o e =
    let same = listen_signal-same junk r l k b o e in
    ap (λ (m : Listener). m.to_send_registered) same

receive_mail-registered :
    (junk : MessageType) (mail : Mail) (out o : List Output) (l k : Listener) (b : Bool)
    → receive_mail junk mail out l ≡ ok (b, k, o)
    → k.to_send_registered ≡ l.to_send_registered
unfolding receive_mail write_mail_type dispatch_udp on_reply on_confirm on_other send send_data
    set_srv_msg_id
receive_mail-registered junk mail out o l k b e = ground arith

note_failure-registered :
    (b : Bool) (out : List Output) (l : Listener)
    → (note_failure b out l).1.to_send_registered ≡ l.to_send_registered
unfolding note_failure
note_failure-registered true out l = refl
note_failure-registered false out l = refl

listen_socket-registered :
    (junk : MessageType) (a : Arrival) (l k : Listener) (b : Bool) (o : List Output)
    → listen_socket junk a l ≡ ok (b, k, o)
    → k.to_send_registered ≡ l.to_send_registered
unfolding listen_socket
listen_socket-registered junk a l k b o e =
    let ((got, buffer, c), p, q) = >>=-eq-ok (receive_data a l.connection) _ e in
    let (_, p', q') = >>=-eq-ok (guard got failed_to_receive) _ q in
    let ((written, mail, out), p'', q'') =
      >>=-eq-ok (write_mail_buffer buffer (new_mail junk) l.mailbox) _ q' in
    let noted = note_failure written out (record l { connection = c }) in
    receive_mail-registered junk mail noted.0 o noted.1 k b q''
    ∙ note_failure-registered written out (record l { connection = c })

send_outgoing-registered :
    (l k : Listener) (b : Bool) (o : List Output)
    → send_outgoing l ≡ ok (b, k, o)
    → k.to_send_registered ≡ l.to_send_registered
unfolding send_outgoing note_bye send send_data await_confirm
send_outgoing-registered l k b o e = ground arith

listen_to_send_pipe-registered :
    (r : PipeRead) (l k : Listener) (b : Bool) (o : List Output)
    → listen_to_send_pipe r l ≡ ok (b, k, o)
    → k.to_send_registered ≡ l.to_send_registered
unfolding listen_to_send_pipe
listen_to_send_pipe-registered broken l k b o e = cc
listen_to_send_pipe-registered at_eof l k b o e = ground arith
listen_to_send_pipe-registered (chunk c) l k b o e = send_outgoing-registered l k b o e
listen_to_send_pipe-registered try_again l k b o e = send_outgoing-registered l k b o e

pub handle-registered :
    (junk : MessageType) (e : Event) (l k : Listener) (out o : List Output)
    → handle junk e l out ≡ ok (k, o)
    → k.to_send_registered ≡ l.to_send_registered
unfolding handle
handle-registered junk (stdin_ready r) l k out o h =
    let (b, p, q) = must-eq-ok (listen_stdin junk r l) out o k h in
    listen_stdin-registered junk r l k b p q
handle-registered junk (socket_ready a) l k out o h =
    let (b, p, q) = must-eq-ok (listen_socket junk a l) out o k h in
    listen_socket-registered junk a l k b p q
handle-registered junk (to_send_ready r) l k out o h =
    let (b, p, q) = must-eq-ok (listen_to_send_pipe r l) out o k h in
    listen_to_send_pipe-registered r l k b p q
handle-registered junk (signal_ready r) l k out o h =
    let (b, p, q) = must-eq-ok (listen_signal junk r l) out o k h in
    listen_signal-registered junk r l k b p q
handle-registered junk unknown_ready l k out o h = cc
handle-registered junk stray l k out o h = ground arith

handle_all-registered :
    (junk : MessageType) (es : List Event) (l k : Listener) (out o : List Output)
    → handle_all junk es l out ≡ ok (k, o)
    → k.to_send_registered ≡ l.to_send_registered
unfolding handle_all
handle_all-registered junk [] l k out o h = ground arith
handle_all-registered junk (e ∷ es) l k out o h =
    let ((m, p), q, r) = >>=-eq-ok (handle junk e l out) _ h in
    handle_all-registered junk es m k p o r ∙ handle-registered junk e l m out p q

retry-registered : (l k : Listener) → retry l ≡ ok k → k.to_send_registered ≡ l.to_send_registered
unfolding retry send send_data
retry-registered l k e = ground arith

pub round_body-registered :
    (junk : MessageType) (w : Wake) (l k : Listener) (o : List Output)
    → round_body junk w l ≡ ok (k, o)
    → k.to_send_registered ≡ l.to_send_registered
round_body-registered junk timed_out l k o e =
    let (m, p, q) = >>=-eq-ok (retry l) _ e in
    let same : k ≡ m = ground arith in rw same (retry-registered l m p)
round_body-registered junk interrupted l k o e = ground arith
round_body-registered junk (events es) l k o e = handle_all-registered junk es l k [] o e
