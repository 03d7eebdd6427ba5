-- ===== src/Program/Login/Answers.antt =====
-- src/listeners.cpp, Listener::listenSocket: the server's CONFIRM of the AUTH, and its REPLY.
use tcp_udp_chat_server.Program.Turns.{Turn, listener_event, main_round}
use tcp_udp_chat_server.MailBox.Udp.RoundTrip.{read_string-All}
use tcp_udp_chat_server.Mail.Valid.{passes-All}
use tcp_udp_chat_server.Net.{packet}
use tcp_udp_chat_server.MailBox.Wire.{write_mail_buffer}
use tcp_udp_chat_server.MailBox.Udp.{
  read_body, read_char, read_string, read_uint16, uint16_of, write_udp_mail,
}
use tcp_udp_chat_server.MailBox.State.{MailBox, udp}
use tcp_udp_chat_server.Mail.Validate.{is_printable, make_reply, passes}
use tcp_udp_chat_server.Mail.Types.{
  Mail, MessageType, confirm, confirm_message, new_mail, reply, reply_message, type_of_code,
}
use tcp_udp_chat_server.Listener.Loop.{socket_ready}
use tcp_udp_chat_server.Common.{
  List, Bytes, [], append_assoc, false, ok, pos, refl, true, ℕ, ◌++◌, ◌∷◌, ◌≡◌,
}

-- The CONFIRM of the message with the id 0.
abbrev pub confirm_datagram : Bytes
confirm_datagram = 0 ∷ 0 ∷ 0 ∷ []

-- A positive REPLY to the message with the id 0, whose own id has the two bytes `hi` and `lo`.
abbrev pub reply_datagram : ℕ → ℕ → Bytes → Bytes
reply_datagram hi lo content = 1 ∷ hi ∷ lo ∷ 1 ∷ 0 ∷ 0 ∷ content ++ 0 ∷ []

-- The mail that is made of it.
abbrev pub granted_with : MessageType → ℕ → Bytes → Mail
granted_with junk id content = record (new_mail junk) {
  type = reply;
  payload = reply_message (record {
    message_id = pos id;
    result = true;
    ref_message_id = pos 0;
    message_content = content;
  });
}

pub confirm_read :
    (junk : MessageType) (mb : MailBox) (more : Bytes)
    → mb.delivery_service ≡ udp
    → write_mail_buffer (confirm_datagram ++ more) (new_mail junk) mb
      ≡ ok (
        true,
        record (new_mail junk) {
          type = confirm;
          payload = confirm_message (record { ref_message_id = pos 0 });
          add_to_mail_queue = false;
        },
        [],
      )
unfolding write_mail_buffer write_udp_mail read_char read_body read_uint16 type_of_code uint16_of
confirm_read junk mb more u = rw u refl

pub reply_read :
    (junk : MessageType) (mb : MailBox) (hi lo : ℕ) (content more : Bytes)
    → mb.delivery_service ≡ udp
    → passes is_printable 1400 content ≡ true
    → write_mail_buffer (reply_datagram hi lo content ++ more) (new_mail junk) mb
      ≡ ok (true, granted_with junk (uint16_of hi lo) content, [])
unfolding write_mail_buffer write_udp_mail read_char read_body read_uint16 type_of_code make_reply
reply_read junk mb hi lo content more u v =
    let text : read_string (content ++ 0 ∷ more) ≡ ok (content, more) =
      read_string-All is_printable content more (unfold is_printable in refl)
        (passes-All is_printable 1400 content v) in
    rw (u, append_assoc, text, v) (unfold uint16_of in refl)

-- The CONFIRM that the client gives back for the REPLY.
abbrev pub own_confirm : MessageType → ℕ → Mail
own_confirm junk id = record (new_mail junk) {
  type = confirm;
  payload = confirm_message (record { ref_message_id = pos id });
}

-- The server's answers, and a round of the state machine.
abbrev pub answering_turns : ℕ → ℕ → ℕ → ℕ → Bytes → List Turn
answering_turns x y hi lo content =
    listener_event (socket_ready (packet confirm_datagram x true))
    ∷ listener_event (socket_ready (packet (reply_datagram hi lo content) y true))
    ∷ main_round
    ∷ []
