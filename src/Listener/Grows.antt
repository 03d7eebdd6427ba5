-- ===== src/Listener/Grows.antt =====
-- src/listeners.cpp, class Listener with src/net.cpp, sendData: what was sent stays sent.
use tcp_udp_chat_server.MailBox.Wire.{write_mail_buffer}
use tcp_udp_chat_server.MailBox.State.{ProtocolType, tcp, udp}
use tcp_udp_chat_server.MailBox.Local.{write_mail_type}
use tcp_udp_chat_server.Listener.Loop.{
  Event, handle, retry, signal_ready, socket_ready, stdin_ready, stray, to_send_ready,
  unknown_ready,
}
use tcp_udp_chat_server.Listener.Hears.{listen_signal-same, listen_stdin-same}
use tcp_udp_chat_server.Listener.Hang.{must-eq-ok}
use tcp_udp_chat_server.Listener.Fills.{is_to_send}
use tcp_udp_chat_server.Serializer.{serialize}
use tcp_udp_chat_server.Net.{
  Arrival, follow_port, receive_data, receive_tcp, receive_udp, Connection, send_data,
}
use tcp_udp_chat_server.MailBox.Udp.{by_udp}
use tcp_udp_chat_server.Mail.Types.{
  MessageType, confirm, new_mail, reply, Mail, get_message_id, get_ref_message_id,
}
use tcp_udp_chat_server.Mail.Print.{Output}
use tcp_udp_chat_server.Listener.State.{Listener}
use tcp_udp_chat_server.Listener.Handlers.{
  dispatch_udp, listen_signal, listen_socket, listen_stdin, note_failure, receive_mail, on_confirm,
  on_other, on_reply, send, set_srv_msg_id,
}
use tcp_udp_chat_server.Common.{
  ap, failed_to_receive, false, guard, pos, true, ◌+◌, >>=-eq-ok, Bool, Bool-cases, Bytes, List, [],
  append-nil, append_assoc, arith, eq_ℤ, inl, inr, leb_ℤ, ok, refl, sym, ◌++◌, ◌∙◌, ◌∷◌, ◌≡◌,
}

-- The protocol stays, and more may have been sent.
pub record Grows (c d : Connection) : Type 0 where
  pub protocol_is : d.protocol ≡ c.protocol
  pub more : List Bytes
  pub sent_is : d.sent ≡ c.sent ++ more

pub Grows-same : (c d : Connection) → d ≡ c → Grows c d
Grows-same c d e =
    rw e (record { protocol_is = refl; more = []; sent_is = sym (append-nil c.sent) })

Grows-trans : (a b c : Connection) → Grows a b → Grows b c → Grows a c
Grows-trans a b c f g = record {
  protocol_is = g.protocol_is ∙ f.protocol_is;
  more = f.more ++ g.more;
  sent_is = g.sent_is ∙ rw f.sent_is (append_assoc a.sent f.more g.more);
}

send-Grows : (mail : Mail) (l k : Listener) → send mail l ≡ ok k → Grows l.connection k.connection
unfolding send send_data
send-Grows mail l k e = record {
  protocol_is = ground arith;
  more = serialize (by_udp l.connection.protocol) mail ∷ [];
  sent_is = ground arith;
}

on_reply-Grows :
    (mail confirm_mail : Mail) (out o : List Output) (l k : Listener) (b : Bool)
    → on_reply mail confirm_mail out l ≡ ok (b, k, o)
    → Grows l.connection k.connection
unfolding on_reply set_srv_msg_id
on_reply-Grows mail confirm_mail out o l k b e =
    elim (Bool-cases (leb_ℤ (get_message_id mail) l.mailbox.srv_msg_id)) [
      | inl y ↦
          let (m, p, q) = >>=-eq-ok (send confirm_mail l) _ (rw y at e) in
          let same : k ≡ m = ground arith in rw same (send-Grows confirm_mail l m p)
      | inr n ↦ elim (Bool-cases (eq_ℤ l.ref_auth_id (get_ref_message_id mail))) [
        | inl y ↦
            let (m, p, q) = >>=-eq-ok (send confirm_mail _) _ (rw (n, y) at e) in
            let same : k.connection ≡ m.connection = ground arith in
            rw same (send-Grows confirm_mail _ m p)
        | inr i ↦ Grows-same l.connection k.connection (ground arith)
      ]
    ]

on_other-Grows :
    (mail confirm_mail : Mail) (out o : List Output) (l k : Listener) (b : Bool)
    → on_other mail confirm_mail out l ≡ ok (b, k, o)
    → Grows l.connection k.connection
unfolding on_other set_srv_msg_id
on_other-Grows mail confirm_mail out o l k b e =
    elim (Bool-cases (leb_ℤ (get_message_id mail) l.mailbox.srv_msg_id)) [
      | inl y ↦ Grows-same l.connection k.connection (ground arith)
      | inr n ↦
          let (m, p, q) = >>=-eq-ok (send confirm_mail _) _ (rw n at e) in
          let same : k.connection ≡ m.connection = ground arith in
          rw same (send-Grows confirm_mail _ m p)
    ]

on_confirm-connection :
    (mail : Mail) (out o : List Output) (l k : Listener) (b : Bool)
    → on_confirm mail out l ≡ ok (b, k, o)
    → k.connection ≡ l.connection
unfolding on_confirm
on_confirm-connection mail out o l k b e = ground arith

dispatch_udp-Grows :
    (junk t : MessageType) (mail confirm_mail : Mail) (out o : List Output) (l k : Listener)
    (b : Bool)
    → dispatch_udp t mail confirm_mail out l ≡ ok (b, k, o)
    → Grows l.connection k.connection
unfolding dispatch_udp
dispatch_udp-Grows junk reply mail confirm_mail out o l k b e =
    on_reply-Grows mail confirm_mail out o l k b e
dispatch_udp-Grows junk confirm mail confirm_mail out o l k b e =
    Grows-same l.connection k.connection (on_confirm-connection mail out o l k b e)
dispatch_udp-Grows junk _ mail confirm_mail out o l k b e =
    on_other-Grows mail confirm_mail out o l k b e

receive_mail-Grows :
    (junk : MessageType) (mail : Mail) (out o : List Output) (l k : Listener) (b : Bool)
    (service : ProtocolType)
    → l.protocol_type ≡ service
    → receive_mail junk mail out l ≡ ok (b, k, o)
    → Grows l.connection k.connection
unfolding receive_mail
receive_mail-Grows junk mail out o l k b tcp s e =
    Grows-same l.connection k.connection (ground arith)
receive_mail-Grows junk mail out o l k b udp s e =
    let (c, p, q) =
      >>=-eq-ok (write_mail_type confirm (new_mail junk) (get_message_id mail) l.mailbox) _
        (rw (s, receive_mail) at e) in
    dispatch_udp-Grows junk mail.type mail c out o l k b q

receive_data-Grows :
    (a : Arrival) (c d : Connection) (got : Bool) (buffer : Bytes)
    → receive_data a c ≡ ok (got, buffer, d)
    → Grows c d
unfolding receive_data receive_tcp receive_udp follow_port
receive_data-Grows a c d got buffer e =
    let same : d.sent ≡ c.sent = ground arith in
    record { protocol_is = ground arith; more = []; sent_is = same ∙ sym (append-nil c.sent) }

note_failure-connection :
    (b : Bool) (out : List Output) (l : Listener)
    → (note_failure b out l).1.connection ≡ l.connection
unfolding note_failure
note_failure-connection true out l = refl
note_failure-connection false out l = refl

listen_socket-Grows :
    (junk : MessageType) (a : Arrival) (l k : Listener) (b : Bool) (o : List Output)
    → listen_socket junk a l ≡ ok (b, k, o)
    → Grows l.connection k.connection
unfolding listen_socket
listen_socket-Grows junk a l k b o e =
    let ((got, buffer, c), p, q) = >>=-eq-ok (receive_data a l.connection) _ e in
    let (_, p', q') = >>=-eq-ok (guard got failed_to_receive) _ q in
    let ((written, mail, out), p'', q'') =
      >>=-eq-ok (write_mail_buffer buffer (new_mail junk) l.mailbox) _ q' in
    let noted = note_failure written out (record l { connection = c }) in
    let same = note_failure-connection written out (record l { connection = c }) in
    Grows-trans l.connection c k.connection (receive_data-Grows a l.connection c got buffer p)
      (rw same at (receive_mail-Grows junk mail noted.0 o noted.1 k b _ refl q''))

pub handle-Grows :
    (junk : MessageType) (e : Event) (l k : Listener) (o : List Output)
    → is_to_send e ≡ false
    → handle junk e l [] ≡ ok (k, o)
    → Grows l.connection k.connection
unfolding handle
handle-Grows junk (stdin_ready r) l k o i h =
    let (b, p, q) = must-eq-ok (listen_stdin junk r l) [] o k h in
    let same = listen_stdin-same junk r l k b p q in
    Grows-same l.connection k.connection (ap (λ (m : Listener). m.connection) same)
handle-Grows junk (socket_ready a) l k o i h =
    let (b, p, q) = must-eq-ok (listen_socket junk a l) [] o k h in
    listen_socket-Grows junk a l k b p q
handle-Grows junk (to_send_ready r) l k o i h = cc
handle-Grows junk (signal_ready r) l k o i h =
    let (b, p, q) = must-eq-ok (listen_signal junk r l) [] o k h in
    let same = listen_signal-same junk r l k b p q in
    Grows-same l.connection k.connection (ap (λ (m : Listener). m.connection) same)
handle-Grows junk unknown_ready l k o i h = cc
handle-Grows junk stray l k o i h = Grows-same l.connection k.connection (ground arith)

pub retry-Grows : (l k : Listener) → retry l ≡ ok k → Grows l.connection k.connection
unfolding retry
retry-Grows l k e = elim (Bool-cases (leb_ℤ l.connection.retries (pos l.retries))) [
  | inl y ↦ absurd (ground arith)
  | inr n ↦ send-Grows l.conf_mail (record l { retries = l.retries + 1 }) k (rw n at e)
]
