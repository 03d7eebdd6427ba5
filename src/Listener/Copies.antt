-- ===== src/Listener/Copies.antt =====
-- src/listeners.cpp, Listener::listenSocket: what becomes of the copies of a message by UDP.
use tcp_udp_chat_server.Listener.Dedup.{receive_mails}
use tcp_udp_chat_server.Program.Shutdown.{count}
use tcp_udp_chat_server.Serializer.{serialize}
use tcp_udp_chat_server.Net.{send_data}
use tcp_udp_chat_server.MailBox.State.{udp}
use tcp_udp_chat_server.MailBox.Queue.{add_mail}
use tcp_udp_chat_server.MailBox.Local.{write_mail_type}
use tcp_udp_chat_server.Mail.Types.{
  get_ref_message_id, confirm, confirm_message, new_mail, reply, Mail, MessageType, get_message_id,
}
use tcp_udp_chat_server.Mail.Print.{Output}
use tcp_udp_chat_server.Listener.State.{Listener}
use tcp_udp_chat_server.Listener.Handlers.{
  dispatch_udp, on_other, on_reply, receive_mail, send, set_srv_msg_id,
}
use tcp_udp_chat_server.Common.{
  Bytes, append-nil, append_assoc, eq_ℤ_iff, refl, replicate, suc, zero, ℕ, ◌∙◌, Bool-cases,
  if◌then◌else◌, [], inl, inr, leb_ℤ-refl, true, ℤ, ◌++◌, ◌∷◌, ◌≢◌, ◌≤ℤ◌, Bool, List, arith, false,
  leb_ℤ, ok, ◌≡◌,
}

-- The CONFIRM that `listenSocket` makes.
abbrev pub confirm_of : MessageType → ℤ → Mail
confirm_of junk id = record (new_mail junk) {
  type = confirm;
  payload = confirm_message (record { ref_message_id = id });
}

-- A REPLY by UDP whose id is not above the latest noted one is confirmed again, where the socket
-- can be written to, and changes nothing else.
repeated_reply_confirmed :
    (junk : MessageType) (mail : Mail) (out : List Output) (l : Listener)
    → l.protocol_type ≡ udp
    → l.connection.protocol ≡ udp
    → l.connection.send_fails ≡ false
    → get_message_id mail ≤ℤ l.mailbox.srv_msg_id
    → mail.type ≡ reply
    → receive_mail junk mail out l
      ≡ ok (
        true,
        record l {
          connection = record l.connection {
            sent = l.connection.sent ++ serialize true (confirm_of junk (get_message_id mail)) ∷ [];
          };
        },
        out,
      )
unfolding receive_mail write_mail_type dispatch_udp on_reply send send_data
repeated_reply_confirmed junk mail out l u v s h r = ground arith

-- Any message but a REPLY or a CONFIRM, by UDP, whose id is not above the latest noted one, is
-- dropped without a CONFIRM: the listener stays as it is, and nothing is sent.
repeated_unconfirmed :
    (junk : MessageType) (mail : Mail) (out : List Output) (l : Listener)
    → l.protocol_type ≡ udp
    → get_message_id mail ≤ℤ l.mailbox.srv_msg_id
    → mail.type ≢ reply
    → mail.type ≢ confirm
    → receive_mail junk mail out l ≡ ok (true, l, out)
unfolding receive_mail write_mail_type dispatch_udp on_other
repeated_unconfirmed junk mail out l u h n n' = ground arith

abbrev pub is_reply : MessageType → Bool
is_reply reply = true
is_reply _ = false

-- The listener once it has taken a mail that is new.
abbrev pub taken_in : MessageType → Mail → Listener → Listener
taken_in junk mail l = record l {
  mailbox = record l.mailbox {
    incoming_mails = l.mailbox.incoming_mails ++ mail ∷ [];
    srv_msg_id = get_message_id mail;
  };
  connection = record l.connection {
    sent = l.connection.sent ++ serialize true (confirm_of junk (get_message_id mail)) ∷ [];
  };
}

receive_new :
    (junk : MessageType) (mail : Mail) (l : Listener)
    → l.protocol_type ≡ udp
    → l.connection.protocol ≡ udp
    → l.connection.send_fails ≡ false
    → leb_ℤ (get_message_id mail) l.mailbox.srv_msg_id ≡ false
    → mail.type ≢ confirm
    → (mail.type ≡ reply → l.ref_auth_id ≡ get_ref_message_id mail)
    → mail.add_to_mail_queue ≡ true
    → receive_mail junk mail [] l ≡ ok (true, taken_in junk mail l, [])
unfolding receive_mail write_mail_type dispatch_udp on_reply on_other send send_data set_srv_msg_id
    add_mail
receive_new junk mail l u v s h n r a = elim (Bool-cases (is_reply mail.type)) [
  | inl y ↦
      let answers = (eq_ℤ_iff l.ref_auth_id (get_ref_message_id mail)).1 (r (ground arith)) in
      ground arith
  | inr m ↦ ground arith
]

-- The CONFIRMs for `n` more copies of a mail.
abbrev pub confirms_again : MessageType → Mail → ℕ → List Bytes
confirms_again junk mail n =
    if is_reply mail.type
    then replicate n (serialize true (confirm_of junk (get_message_id mail)))
    else []

copies_received :
    (junk : MessageType) (mail : Mail) (n : ℕ) (l : Listener)
    → l.protocol_type ≡ udp
    → l.connection.protocol ≡ udp
    → l.connection.send_fails ≡ false
    → get_message_id mail ≤ℤ l.mailbox.srv_msg_id
    → mail.type ≢ confirm
    → receive_mails junk (replicate n mail) l
      ≡ ok (record l {
        connection = record l.connection { sent = l.connection.sent ++ confirms_again junk mail n };
      })
unfolding receive_mails
copies_received junk mail zero l u v s h n = elim (Bool-cases (is_reply mail.type)) [
  | inl y ↦ rw (y, append-nil) refl
  | inr m ↦ rw (m, append-nil) refl
]
copies_received junk mail (suc count) l u v s h n = elim (Bool-cases (is_reply mail.type)) [
  | inl y ↦
      let k = record l {
        connection = record l.connection {
          sent = l.connection.sent ++ serialize true (confirm_of junk (get_message_id mail)) ∷ [];
        };
      } in
      rw (repeated_reply_confirmed junk mail [] l u v s h (ground arith))
        (copies_received junk mail count k u v s h n ∙ rw (y, append_assoc) refl)
  | inr m ↦
      rw (repeated_unconfirmed junk mail [] l u h (ground arith) n)
        (copies_received junk mail count l u v s h n ∙ rw m refl)
]

-- A message but a CONFIRM, by UDP, that is to be queued and whose id is above the latest noted one,
-- a REPLY only where it refers to the last AUTH or JOIN, where the socket can be written to:
-- however many copies of it come, it is put into the queue once, its id is noted, and nothing else
-- of the mailbox changes. The first copy is confirmed. Of the others each is confirmed where it is
-- a REPLY, and none where it is not.
pub repeated_mail :
    (junk : MessageType) (mail : Mail) (n : ℕ) (l : Listener)
    → l.protocol_type ≡ udp
    → l.connection.protocol ≡ udp
    → l.connection.send_fails ≡ false
    → leb_ℤ (get_message_id mail) l.mailbox.srv_msg_id ≡ false
    → mail.type ≢ confirm
    → (mail.type ≡ reply → l.ref_auth_id ≡ get_ref_message_id mail)
    → mail.add_to_mail_queue ≡ true
    → receive_mails junk (mail ∷ replicate n mail) l
      ≡ ok (record l {
        mailbox = record l.mailbox {
          incoming_mails = l.mailbox.incoming_mails ++ mail ∷ [];
          srv_msg_id = get_message_id mail;
        };
        connection = record l.connection {
          sent =
              l.connection.sent
              ++ (serialize true (confirm_of junk (get_message_id mail))
                  ∷ (if is_reply mail.type
                      then replicate n (serialize true (confirm_of junk (get_message_id mail)))
                      else []));
        };
      })
unfolding receive_mails
repeated_mail junk mail n l u v s h c r a = rw (receive_new junk mail l u v s h c r a) (
    copies_received junk mail n (taken_in junk mail l) u v s (leb_ℤ-refl (get_message_id mail)) c
    ∙ rw append_assoc refl)
