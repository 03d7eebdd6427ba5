-- ===== src/Listener/StillAwaits.antt =====
-- src/listeners.cpp, class Listener: an event that does not bring the awaited CONFIRM.
use tcp_udp_chat_server.Listener.Unconfirmed.{is_quiet, read-unconfirmed}
use tcp_udp_chat_server.Listener.Hears.{listen_signal-same, listen_stdin-same}
use tcp_udp_chat_server.Listener.Hang.{must-eq-ok}
use tcp_udp_chat_server.MailBox.Wire.{write_mail_buffer}
use tcp_udp_chat_server.MailBox.Local.{write_mail_type}
use tcp_udp_chat_server.Listener.State.{Listener}
use tcp_udp_chat_server.Listener.Handlers.{
  listen_signal, listen_socket, listen_stdin, dispatch_udp, note_failure, on_confirm, on_other,
  on_reply, receive_mail, send, set_srv_msg_id,
}
use tcp_udp_chat_server.Listener.Confirm.{receive_mail_waits}
use tcp_udp_chat_server.Net.{
  Arrival, nothing, Connection, receive_data, receive_udp, send_data, packet,
}
use tcp_udp_chat_server.MailBox.State.{MailBox, udp}
use tcp_udp_chat_server.Mail.Types.{MessageType, new_mail, Mail, confirm, get_message_id}
use tcp_udp_chat_server.Mail.Print.{Output}
use tcp_udp_chat_server.Listener.Loop.{
  handle, signal_ready, stdin_ready, stray, unknown_ready, Event, socket_ready, to_send_ready,
}
use tcp_udp_chat_server.Common.{
  guard-eq-ok, failed_to_receive, guard, >>=-eq-ok, inl, inr, refl, ◌∙◌, ◌≢◌, Bool, Bytes, List,
  arith, false, ok, true, ◌≡◌,
}

-- The listener, its mailbox and its connection are by UDP.
pub record ByUdp (l : Listener) : Type 0 where
  pub protocol_is : l.protocol_type ≡ udp
  pub service_is : l.mailbox.delivery_service ≡ udp
  pub connection_is : l.connection.protocol ≡ udp

-- The wait for the CONFIRM goes on.
pub record StillAwaits (l k : Listener) : Type 0 where
  pub type_is : k.protocol_type ≡ l.protocol_type
  pub confirm_is : k.received_confirm ≡ l.received_confirm
  pub ref_is : k.ref_msg_id ≡ l.ref_msg_id
  pub mail_is : k.conf_mail ≡ l.conf_mail

receive_mail-type :
    (junk : MessageType) (mail : Mail) (out o : List Output) (l k : Listener) (b : Bool)
    → receive_mail junk mail out l ≡ ok (b, k, o)
    → k.protocol_type ≡ l.protocol_type
unfolding receive_mail write_mail_type dispatch_udp on_reply on_confirm on_other send send_data
    set_srv_msg_id
receive_mail-type junk mail out o l k b e = ground arith

-- A mail that is no CONFIRM of the awaited id.
receive_mail-StillAwaits :
    (junk : MessageType) (mail : Mail) (out o : List Output) (l k : Listener) (b : Bool)
    → l.protocol_type ≡ udp
    → l.received_confirm ≡ false
    → (mail.type ≡ confirm → get_message_id mail ≢ l.ref_msg_id)
    → receive_mail junk mail out l ≡ ok (b, k, o)
    → StillAwaits l k
receive_mail-StillAwaits junk mail out o l k b u w n e =
    elim (receive_mail_waits junk mail out o l k b u w e) [
      | inl confirmed ↦ absurd (n confirmed.0 confirmed.1)
      | inr same ↦ record {
        type_is = receive_mail-type junk mail out o l k b e;
        confirm_is = same.confirm_is;
        ref_is = same.ref_msg_id_is;
        mail_is = same.conf_mail_is;
      }
    ]

same-StillAwaits :
    (l k : Listener) (mb : MailBox) (b : Bool)
    → k ≡ record l { mailbox = mb; keep_running = b }
    → StillAwaits l k
same-StillAwaits l k mb b e =
    rw e (record { type_is = refl; confirm_is = refl; ref_is = refl; mail_is = refl })

note_failure-StillAwaits :
    (written : Bool) (out : List Output) (l : Listener) (c : Connection)
    → StillAwaits l (note_failure written out (record l { connection = c })).1
unfolding note_failure
note_failure-StillAwaits true out l c = record {
  type_is = refl;
  confirm_is = refl;
  ref_is = refl;
  mail_is = refl;
}
note_failure-StillAwaits false out l c = record {
  type_is = refl;
  confirm_is = refl;
  ref_is = refl;
  mail_is = refl;
}

StillAwaits-trans : (l m k : Listener) → StillAwaits l m → StillAwaits m k → StillAwaits l k
StillAwaits-trans l m k a b = record {
  type_is = b.type_is ∙ a.type_is;
  confirm_is = b.confirm_is ∙ a.confirm_is;
  ref_is = b.ref_is ∙ a.ref_is;
  mail_is = b.mail_is ∙ a.mail_is;
}

nothing_fails :
    (eagain got : Bool) (buffer : Bytes) (c d : Connection)
    → c.protocol ≡ udp
    → receive_data (nothing eagain) c ≡ ok (got, buffer, d)
    → got ≡ false
unfolding receive_data receive_udp
nothing_fails eagain got buffer c d u e = ground arith

listen_socket-StillAwaits :
    (junk : MessageType) (a : Arrival) (l k : Listener) (b : Bool) (o : List Output)
    → ByUdp l
    → l.received_confirm ≡ false
    → is_quiet l.ref_msg_id (socket_ready a) ≡ true
    → listen_socket junk a l ≡ ok (b, k, o)
    → StillAwaits l k
unfolding listen_socket is_quiet
listen_socket-StillAwaits junk (nothing eagain) l k b o u w n e =
    let ((got, buffer, c), p, q) = >>=-eq-ok (receive_data (nothing eagain) l.connection) _ e in
    let (_, p', q') = >>=-eq-ok (guard got failed_to_receive) _ q in
    let none_got = nothing_fails eagain got buffer l.connection c u.connection_is p in
    let some_got = guard-eq-ok got failed_to_receive p' in cc
listen_socket-StillAwaits junk (packet bytes port resolves) l k b o u w n e =
    let ((got, buffer, c), p, q) =
      >>=-eq-ok (receive_data (packet bytes port resolves) l.connection) _ e in
    let (_, p', q') = >>=-eq-ok (guard got failed_to_receive) _ q in
    let ((written, mail, out), p'', q'') =
      >>=-eq-ok (write_mail_buffer buffer (new_mail junk) l.mailbox) _ q' in
    let unconfirmed =
      read-unconfirmed junk l.ref_msg_id bytes buffer port resolves l.connection c l.mailbox written
        got mail out u.connection_is u.service_is (ground arith) p p'' in
    let noted = note_failure written out (record l { connection = c }) in
    let first : StillAwaits l noted.1 = note_failure-StillAwaits written out l c in
    StillAwaits-trans l noted.1 k first (
      receive_mail-StillAwaits junk mail noted.0 o noted.1 k b (first.type_is ∙ u.protocol_is)
        (first.confirm_is ∙ w) (λ t same. unconfirmed t (same ∙ first.ref_is)) q'')

pub event-StillAwaits :
    (junk : MessageType) (e : Event) (l k : Listener) (out o : List Output)
    → ByUdp l
    → l.received_confirm ≡ false
    → is_quiet l.ref_msg_id e ≡ true
    → handle junk e l out ≡ ok (k, o)
    → StillAwaits l k
unfolding handle is_quiet
event-StillAwaits junk (stdin_ready r) l k out o u w n h =
    let (b, p, q) = must-eq-ok (listen_stdin junk r l) out o k h in
    same-StillAwaits l k k.mailbox l.keep_running (listen_stdin-same junk r l k b p q)
event-StillAwaits junk (socket_ready a) l k out o u w n h =
    let (b, p, q) = must-eq-ok (listen_socket junk a l) out o k h in
    listen_socket-StillAwaits junk a l k b p u w n q
event-StillAwaits junk (to_send_ready r) l k out o u w n h = cc
event-StillAwaits junk (signal_ready r) l k out o u w n h =
    let (b, p, q) = must-eq-ok (listen_signal junk r l) out o k h in
    same-StillAwaits l k k.mailbox k.keep_running (listen_signal-same junk r l k b p q)
event-StillAwaits junk unknown_ready l k out o u w n h = cc
event-StillAwaits junk stray l k out o u w n h =
    same-StillAwaits l k l.mailbox l.keep_running (ground arith)
