-- ===== src/Listener/Variants.antt =====
-- src/listeners.cpp, class Listener: no handler asks a mail for an alternative that it does not
-- hold, where the mailbox delivers by UDP.
use tcp_udp_chat_server.MailBox.Typed.{write_mail_buffer-IsTyped}
use tcp_udp_chat_server.MailBox.Local.{write_mail_type}
use tcp_udp_chat_server.Listener.Lines.{complete_lines, enter_lines, listen_stdin-enter_lines}
use tcp_udp_chat_server.MailBox.Wire.{write_mail_buffer}
use tcp_udp_chat_server.MailBox.Commands.{write_mail_line}
use tcp_udp_chat_server.Net.{
  Arrival, Connection, copy_into_array, follow_port, receive_data, receive_tcp, receive_udp,
  send_data,
}
use tcp_udp_chat_server.MailBox.Variants.{
  write_mail_buffer-GetsRight, >>=-GetsRight, write_mail_line-GetsRight, GetsRight,
  write_mail_type-GetsRight,
}
use tcp_udp_chat_server.MailBox.State.{MailBox, udp}
use tcp_udp_chat_server.MailBox.Queue.{add_mail, get_outgoing_mail}
use tcp_udp_chat_server.MailBox.Laws.{IsTyped}
use tcp_udp_chat_server.Mail.Types.{new_mail, Mail, MessageType, type_of_data}
use tcp_udp_chat_server.Mail.Print.{Output}
use tcp_udp_chat_server.Listener.State.{at_eof, broken, chunk, try_again, Listener, PipeRead}
use tcp_udp_chat_server.Listener.Loop.{
  retry, Event, handle, must, signal_ready, socket_ready, stdin_ready, stray, to_send_ready,
  unknown_ready,
}
use tcp_udp_chat_server.Listener.Handlers.{
  stdin_room, note_failure, Handled, dispatch_udp, listen_signal, listen_socket, listen_stdin,
  listen_to_send_pipe, on_confirm, on_other, on_reply, receive_mail, send, send_outgoing,
  signal_end,
}
use tcp_udp_chat_server.Common.{
  take, Bool, ok, failed_to_receive, guard, inl, inr, ◌++◌, Bytes, List, Result, [], arith, ◌∷◌,
  ◌≡◌,
}

send_data-GetsRight : (mail : Mail) (c : Connection) → GetsRight (send_data mail c)
unfolding send_data
send_data-GetsRight mail c e = ground arith

send-GetsRight : (mail : Mail) (l : Listener) → GetsRight (send mail l)
unfolding send send_data
send-GetsRight mail l e = ground arith

must-GetsRight : (r : Result Handled) (out : List Output) → GetsRight r → GetsRight (must r out)
must-GetsRight r out g e = ground arith

enter_lines-GetsRight :
    (junk : MessageType) (lines : List Bytes) (mb : MailBox) (out : List Output)
    → GetsRight (enter_lines junk lines mb out)
unfolding enter_lines
enter_lines-GetsRight junk [] mb out = λ e. cc
enter_lines-GetsRight junk (line ∷ lines) mb out =
    >>=-GetsRight (write_mail_line line (new_mail junk) mb) _
      (write_mail_line-GetsRight line (new_mail junk) mb)
      (λ r _. enter_lines-GetsRight junk lines (add_mail r.0 r.1) (out ++ r.2))

listen_stdin-GetsRight :
    (junk : MessageType) (r : PipeRead) (l : Listener) → GetsRight (listen_stdin junk r l)
listen_stdin-GetsRight junk (chunk bytes) l = rw (listen_stdin-enter_lines junk bytes l) (
    >>=-GetsRight (enter_lines junk (complete_lines (take stdin_room bytes) []) l.mailbox []) _
      (enter_lines-GetsRight junk (complete_lines (take stdin_room bytes) []) l.mailbox [])
      (λ r _ e. cc))
listen_stdin-GetsRight junk try_again l = unfold listen_stdin in (λ e. cc)
listen_stdin-GetsRight junk broken l = unfold listen_stdin in (λ e. cc)
listen_stdin-GetsRight junk at_eof l = unfold listen_stdin in (λ e. cc)

receive_mail-GetsRight :
    (junk : MessageType) (mail : Mail) (out : List Output) (l : Listener)
    → IsTyped mail
    → GetsRight (receive_mail junk mail out l)
unfolding receive_mail write_mail_type dispatch_udp on_reply on_confirm on_other send send_data
    type_of_data
receive_mail-GetsRight junk mail out l t e = ground arith

receive_data-GetsRight : (a : Arrival) (c : Connection) → GetsRight (receive_data a c)
unfolding receive_data receive_tcp receive_udp copy_into_array follow_port
receive_data-GetsRight a c e = ground arith

read-IsTyped :
    (buffer : Bytes) (mail m : Mail) (mb : MailBox) (b : Bool) (out : List Output)
    → mb.delivery_service ≡ udp
    → write_mail_buffer buffer mail mb ≡ ok (b, m, out)
    → IsTyped m
read-IsTyped buffer mail m mb b out u e =
    elim (write_mail_buffer-IsTyped buffer mail m mb b out e) [
      | inl (_, typed) ↦ typed
      | inr (_, by_tcp, _) ↦ cc
    ]

listen_socket-GetsRight :
    (junk : MessageType) (a : Arrival) (l : Listener)
    → l.mailbox.delivery_service ≡ udp
    → GetsRight (listen_socket junk a l)
unfolding listen_socket
listen_socket-GetsRight junk a l u =
    >>=-GetsRight (receive_data a l.connection) _ (receive_data-GetsRight a l.connection) (λ r _.
      >>=-GetsRight (guard r.0 failed_to_receive) _ (λ e. ground arith)
        (λ _ _.
          >>=-GetsRight (write_mail_buffer r.1 (new_mail junk) l.mailbox) _
            (write_mail_buffer-GetsRight r.1 (new_mail junk) l.mailbox u)
            (λ w is.
              let noted = note_failure w.0 w.2 (record l { connection = r.2 }) in
              receive_mail-GetsRight junk w.1 noted.0 noted.1
                (read-IsTyped r.1 (new_mail junk) w.1 l.mailbox w.0 w.2 u is))))

listen_to_send_pipe-GetsRight : (r : PipeRead) (l : Listener) → GetsRight (listen_to_send_pipe r l)
unfolding listen_to_send_pipe send_outgoing get_outgoing_mail
listen_to_send_pipe-GetsRight r l e = grind (arith, send-GetsRight)

listen_signal-GetsRight :
    (junk : MessageType) (r : PipeRead) (l : Listener) → GetsRight (listen_signal junk r l)
unfolding listen_signal signal_end
listen_signal-GetsRight junk r l e = grind (arith, write_mail_type-GetsRight)

-- A handler, where the mailbox delivers by UDP.
pub handle-GetsRight :
    (junk : MessageType) (e : Event) (l : Listener) (out : List Output)
    → l.mailbox.delivery_service ≡ udp
    → GetsRight (handle junk e l out)
unfolding handle
handle-GetsRight junk (stdin_ready r) l out u =
    must-GetsRight (listen_stdin junk r l) out (listen_stdin-GetsRight junk r l)
handle-GetsRight junk (socket_ready a) l out u =
    must-GetsRight (listen_socket junk a l) out (listen_socket-GetsRight junk a l u)
handle-GetsRight junk (to_send_ready r) l out u =
    must-GetsRight (listen_to_send_pipe r l) out (listen_to_send_pipe-GetsRight r l)
handle-GetsRight junk (signal_ready r) l out u =
    must-GetsRight (listen_signal junk r l) out (listen_signal-GetsRight junk r l)
handle-GetsRight junk unknown_ready l out u = λ e. cc
handle-GetsRight junk stray l out u = λ e. cc

-- What a timeout does.
pub retry-GetsRight : (l : Listener) → GetsRight (retry l)
unfolding retry send send_data
retry-GetsRight l e = ground arith
