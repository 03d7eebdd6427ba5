-- ===== src/Listener/Hears.antt =====
-- src/listeners.cpp, class Listener: what the events other than those of the mails to send leave
-- alone, and what holds where the connection is by TCP.
use tcp_udp_chat_server.Listener.Loop.{
  Event, handle, signal_ready, socket_ready, stdin_ready, stray, to_send_ready, unknown_ready,
}
use tcp_udp_chat_server.Listener.Hang.{must-eq-ok}
use tcp_udp_chat_server.Listener.Ending.{
  listen_signal-Leaves, listen_socket-Leaves, listen_stdin-Leaves,
}
use tcp_udp_chat_server.Net.{Arrival, Connection, receive_data, receive_tcp}
use tcp_udp_chat_server.MailBox.Wire.{write_mail_buffer}
use tcp_udp_chat_server.MailBox.State.{MailBox, tcp}
use tcp_udp_chat_server.Mail.Types.{Mail, MessageType, new_mail}
use tcp_udp_chat_server.Mail.Print.{Output}
use tcp_udp_chat_server.Listener.State.{Listener, PipeRead, at_eof, broken, chunk, try_again}
use tcp_udp_chat_server.Listener.Handlers.{
  stdin_room, listen_signal, listen_socket, listen_stdin, note_failure, receive_mail, signal_end,
  stdin_loop,
}
use tcp_udp_chat_server.Listener.Fills.{handle-Fills, is_to_send, Fills}
use tcp_udp_chat_server.Common.{
  take, false, >>=-eq-ok, Bool, Bytes, List, [], arith, failed_to_receive, guard, ok, refl, true,
  ◌≡◌,
}

-- The listener and its connection are by TCP, and no CONFIRM is awaited.
pub record ByTcp (l : Listener) : Type 0 where
  pub protocol_is : l.protocol_type ≡ tcp
  pub connection_is : l.connection.protocol ≡ tcp
  pub none_awaited : l.received_confirm ≡ true

-- Still by TCP, and nothing was sent.
pub record Quiet (l k : Listener) : Type 0 where
  pub by_tcp : ByTcp k
  pub sent_is : k.connection.sent ≡ l.connection.sent

pub record Hears (l k : Listener) : Type 0 where
  pub fills : Fills l.mailbox k.mailbox
  pub bye_is : k.sent_bye ≡ l.sent_bye
  pub quiet : ByTcp l → Quiet l k

-- A listener that differs in its mailbox and in whether it is to go on.
same-Quiet :
    (l k : Listener)
    → (mb : MailBox) × (b : Bool) × (k ≡ record l { mailbox = mb; keep_running = b })
    → ByTcp l
    → Quiet l k
same-Quiet l k (mb, b, e) t = rw e (record {
  by_tcp = record {
    protocol_is = t.protocol_is;
    connection_is = t.connection_is;
    none_awaited = t.none_awaited;
  };
  sent_is = refl;
})

pub listen_stdin-same :
    (junk : MessageType) (r : PipeRead) (l k : Listener) (b : Bool) (o : List Output)
    → listen_stdin junk r l ≡ ok (b, k, o)
    → k ≡ record l { mailbox = k.mailbox }
unfolding listen_stdin
listen_stdin-same junk (chunk bytes) l k b o e =
    let ((mb, o1), p, q) =
      >>=-eq-ok (stdin_loop junk (take stdin_room bytes) [] l.mailbox []) _ e in
    ground arith
listen_stdin-same junk broken l k b o e = cc
listen_stdin-same junk at_eof l k b o e = ground arith
listen_stdin-same junk try_again l k b o e = ground arith

pub listen_signal-same :
    (junk : MessageType) (r : PipeRead) (l k : Listener) (b : Bool) (o : List Output)
    → listen_signal junk r l ≡ ok (b, k, o)
    → k ≡ record l { mailbox = k.mailbox; keep_running = k.keep_running }
unfolding listen_signal signal_end
listen_signal-same junk r l k b o e = ground arith

receive_tcp-same :
    (a : Arrival) (c d : Connection) (got : Bool) (buffer : Bytes)
    → c.protocol ≡ tcp
    → receive_data a c ≡ ok (got, buffer, d)
    → d ≡ c
unfolding receive_data receive_tcp
receive_tcp-same a c d got buffer s e = ground arith

receive_mail-same :
    (junk : MessageType) (mail : Mail) (out o : List Output) (l k : Listener) (b : Bool)
    → l.protocol_type ≡ tcp
    → receive_mail junk mail out l ≡ ok (b, k, o)
    → k ≡ record l { mailbox = k.mailbox }
unfolding receive_mail
receive_mail-same junk mail out o l k b s e = ground arith

received-same :
    (junk : MessageType) (mail : Mail) (out o : List Output) (l k : Listener) (b : Bool)
    (c : Connection) (written : Bool)
    → c ≡ l.connection
    → l.protocol_type ≡ tcp
    → receive_mail junk mail
        (note_failure written out (record l { connection = c })).0
        (note_failure written out (record l { connection = c })).1
      ≡ ok (b, k, o)
    → k ≡ record l { mailbox = k.mailbox; keep_running = k.keep_running }
unfolding note_failure
received-same junk mail out o l k b c true same s e =
    let is = receive_mail-same junk mail out o (record l { connection = c }) k b s e in ground arith
received-same junk mail out o l k b c false same s e =
    let is =
      receive_mail-same junk mail _ o (record l { connection = c; keep_running = false }) k b s e in
    ground arith

listen_socket-same :
    (junk : MessageType) (a : Arrival) (l k : Listener) (b : Bool) (o : List Output)
    → ByTcp l
    → listen_socket junk a l ≡ ok (b, k, o)
    → k ≡ record l { mailbox = k.mailbox; keep_running = k.keep_running }
unfolding listen_socket
listen_socket-same junk a l k b o t e =
    let ((got, buffer, c), p, q) = >>=-eq-ok (receive_data a l.connection) _ e in
    let (_, p', q') = >>=-eq-ok (guard got failed_to_receive) _ q in
    let ((written, mail, out), p'', q'') =
      >>=-eq-ok (write_mail_buffer buffer (new_mail junk) l.mailbox) _ q' in
    let here = receive_tcp-same a l.connection c got buffer t.connection_is p in
    received-same junk mail out o l k b c written here t.protocol_is q''

handle-bye :
    (junk : MessageType) (e : Event) (l k : Listener) (o : List Output)
    → is_to_send e ≡ false
    → handle junk e l [] ≡ ok (k, o)
    → k.sent_bye ≡ l.sent_bye
unfolding handle
handle-bye junk (stdin_ready r) l k o i h =
    let (b, p, q) = must-eq-ok (listen_stdin junk r l) [] o k h in
    (listen_stdin-Leaves junk r l k b p q).bye_is
handle-bye junk (socket_ready a) l k o i h =
    let (b, p, q) = must-eq-ok (listen_socket junk a l) [] o k h in
    (listen_socket-Leaves junk a l k b p q).bye_is
handle-bye junk (to_send_ready r) l k o i h = cc
handle-bye junk (signal_ready r) l k o i h =
    let (b, p, q) = must-eq-ok (listen_signal junk r l) [] o k h in
    (listen_signal-Leaves junk r l k b p q).bye_is
handle-bye junk unknown_ready l k o i h = cc
handle-bye junk stray l k o i h = ground arith

handle-same :
    (junk : MessageType) (e : Event) (l k : Listener) (o : List Output)
    → is_to_send e ≡ false
    → ByTcp l
    → handle junk e l [] ≡ ok (k, o)
    → k ≡ record l { mailbox = k.mailbox; keep_running = k.keep_running }
unfolding handle
handle-same junk (stdin_ready r) l k o i t h =
    let (b, p, q) = must-eq-ok (listen_stdin junk r l) [] o k h in
    let same = listen_stdin-same junk r l k b p q in ground arith
handle-same junk (socket_ready a) l k o i t h =
    let (b, p, q) = must-eq-ok (listen_socket junk a l) [] o k h in
    listen_socket-same junk a l k b p t q
handle-same junk (to_send_ready r) l k o i t h = cc
handle-same junk (signal_ready r) l k o i t h =
    let (b, p, q) = must-eq-ok (listen_signal junk r l) [] o k h in
    listen_signal-same junk r l k b p q
handle-same junk unknown_ready l k o i t h = cc
handle-same junk stray l k o i t h = ground arith

pub handle-Hears :
    (junk : MessageType) (e : Event) (l k : Listener) (o : List Output)
    → is_to_send e ≡ false
    → handle junk e l [] ≡ ok (k, o)
    → Hears l k
handle-Hears junk e l k o i h = record {
  fills = handle-Fills junk e l k [] o i h;
  bye_is = handle-bye junk e l k o i h;
  quiet = λ t. same-Quiet l k (k.mailbox, k.keep_running, handle-same junk e l k o i t h) t;
}
