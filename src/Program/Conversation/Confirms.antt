-- ===== src/Program/Conversation/Confirms.antt =====
-- src/listeners.cpp, Listener::listenSocket: the CONFIRM of a message of the user, by UDP.
-- The CONFIRM of the id `n` as the server sends it.
use tcp_udp_chat_server.Serializer.{serialize, serialize_data, serialize_uint16}
use tcp_udp_chat_server.Program.Conversation.Talks.{same_protocol}
use tcp_udp_chat_server.Net.{packet}
use tcp_udp_chat_server.MailBox.Wire.{write_mail_buffer}
use tcp_udp_chat_server.MailBox.Udp.RoundTrip.{
  arrival, as_sent, complaint, is_queued, reread, write_udp_mail-serialize,
}
use tcp_udp_chat_server.MailBox.State.{MailBox, udp}
use tcp_udp_chat_server.MailBox.Local.{write_mail_type}
use tcp_udp_chat_server.Mail.Valid.{IsValid}
use tcp_udp_chat_server.Mail.Types.{
  Mail, MessageType, confirm, confirm_message, new_mail, type_of_data,
}
use tcp_udp_chat_server.Listener.Unconfirmed.{write_by_udp}
use tcp_udp_chat_server.Listener.StillAwaits.{ByUdp}
use tcp_udp_chat_server.Listener.State.{Listener}
use tcp_udp_chat_server.Listener.Loop.{handle, socket_ready}
use tcp_udp_chat_server.Listener.Handlers.{dispatch_udp, on_confirm, receive_mail}
use tcp_udp_chat_server.Listener.Datagram.{receive_data-fits, socket-handled}
use tcp_udp_chat_server.Common.{
  ◌==◌, ◌≢◌, Bytes, [], arith, eq_ℤ_iff, false, minus_one, ok, pos, refl, true, ℕ, ◌++◌, ◌∙◌, ◌≡◌,
}

abbrev pub server_confirm : ℕ → Mail
server_confirm n = record {
  type = confirm;
  payload = confirm_message (record { ref_message_id = pos n });
  add_to_mail_queue = true;
  sigint = false;
}

-- The mail that is made of it.
abbrev confirm_made : MessageType → ℕ → Mail
confirm_made junk n = record (new_mail junk) {
  type = confirm;
  payload = confirm_message (record { ref_message_id = pos (as_sent (pos n)) });
  add_to_mail_queue = false;
}

server_confirm-read :
    (junk : MessageType) (n : ℕ) (more : Bytes) (mb : MailBox)
    → mb.delivery_service ≡ udp
    → write_mail_buffer (serialize true (server_confirm n) ++ more) (new_mail junk) mb
      ≡ ok (true, confirm_made junk n, [])
unfolding type_of_data arrival complaint reread is_queued IsValid
server_confirm-read junk n more mb u =
    write_by_udp (serialize true (server_confirm n) ++ more) (new_mail junk) mb u
    ∙ write_udp_mail-serialize (server_confirm n) mb.delivery_service more (new_mail junk) refl tt
        (λ e. cc)

-- The listener that no longer waits for it.
abbrev pub no_more_awaited : ℕ → Listener → Listener
no_more_awaited port l = record l {
  connection = record l.connection { port = port };
  received_confirm = true;
  retries = 0;
  ref_msg_id = minus_one;
}

receive_confirm :
    (junk : MessageType) (n : ℕ) (l : Listener)
    → ByUdp l
    → l.received_confirm ≡ false
    → l.ref_msg_id ≡ pos n
    → as_sent (pos n) ≡ n
    → receive_mail junk (confirm_made junk n) [] l
      ≡ ok (true, record l { received_confirm = true; retries = 0; ref_msg_id = minus_one }, [])
unfolding receive_mail write_mail_type dispatch_udp on_confirm
receive_confirm junk n l u w r e =
    let same = (eq_ℤ_iff (pos n) (pos n)).1 refl in rw (u.protocol_is, r, w, e, same) refl

-- By UDP, while the CONFIRM of the id `n` is awaited: it comes from a port, and `n` is read as it
-- is.
pub confirm-handled :
    (junk : MessageType) (n : ℕ) (port : ℕ) (l : Listener)
    → ByUdp l
    → l.received_confirm ≡ false
    → l.ref_msg_id ≡ pos n
    → as_sent (pos n) ≡ n
    → handle junk (socket_ready (packet (serialize true (server_confirm n)) port true)) l []
      ≡ ok (no_more_awaited port l, [])
unfolding serialize serialize_data serialize_uint16
confirm-handled junk n port l u w r e =
    let event = packet (serialize true (server_confirm n)) port true in
    let moved = record l { connection = record l.connection { port = port } } in
    let got = receive_data-fits _ _ port l.connection u.connection_is (omega arith) in
    socket-handled junk event l (no_more_awaited port l) _ _ _ got
      (server_confirm-read junk n _ l.mailbox u.service_is)
      (receive_confirm junk n moved (same_protocol l moved u refl refl refl) w r e)

receive_unheard :
    (junk : MessageType) (n : ℕ) (l : Listener)
    → ByUdp l
    → l.ref_msg_id ≡ pos n
    → as_sent (pos n) ≢ n
    → receive_mail junk (confirm_made junk n) [] l ≡ ok (true, l, [])
unfolding receive_mail write_mail_type dispatch_udp on_confirm
receive_unheard junk n l u r e =
    let other : (as_sent (pos n) == n) ≡ false = ground arith in rw (u.protocol_is, r, other) refl

-- The same CONFIRM, where `n` is not read as it is, changes nothing but the port.
pub confirm-unheard :
    (junk : MessageType) (n : ℕ) (port : ℕ) (l : Listener)
    → ByUdp l
    → l.ref_msg_id ≡ pos n
    → as_sent (pos n) ≢ n
    → handle junk (socket_ready (packet (serialize true (server_confirm n)) port true)) l []
      ≡ ok (record l { connection = record l.connection { port = port } }, [])
unfolding serialize serialize_data serialize_uint16
confirm-unheard junk n port l u r e =
    let event = packet (serialize true (server_confirm n)) port true in
    let moved = record l { connection = record l.connection { port = port } } in
    let got = receive_data-fits _ _ port l.connection u.connection_is (omega arith) in
    socket-handled junk event l moved _ _ _ got
      (server_confirm-read junk n _ l.mailbox u.service_is)
      (receive_unheard junk n moved (same_protocol l moved u refl refl refl) r e)
