-- ===== src/Tests/Lines.antt =====
-- What the user types, and what is put into the outgoing queue.
use tcp_udp_chat_server.Tests.Data.{mail_of, tcp_box, udp_box}
use tcp_udp_chat_server.Streams.{
  c_string, get_line, is_space, read_token, skip_space, strip_blank, strip_return, take_token,
}
use tcp_udp_chat_server.MailBox.Wire.{write_mail_buffer}
use tcp_udp_chat_server.MailBox.Typed.{write_mail_buffer-IsTyped}
use tcp_udp_chat_server.MailBox.Tcp.{read_content, read_line, read_msg, write_tcp_mail}
use tcp_udp_chat_server.MailBox.State.{tcp}
use tcp_udp_chat_server.MailBox.Laws.{IsTyped}
use tcp_udp_chat_server.MailBox.Commands.{write_mail_line}
use tcp_udp_chat_server.Mail.Validate.{is_graphic, is_printable, make_text, passes}
use tcp_udp_chat_server.Mail.Types.{Mail, bye, join, msg, new_mail, text_message}
use tcp_udp_chat_server.Common.{
  [], all, beq, codes, false, invalid, message_content_field, ok, pos, refl, throw, true, ◌++◌, ◌∷◌,
  ◌≡◌, ◌⊎◌,
}

abbrev typed_mail : Mail
typed_mail = mail_of msg (
    text_message (record {
      to_send = true;
      message_id = pos 0;
      display_name = codes "default";
      message_content = codes "hello";
    }))

write_hello : write_mail_line (codes "hello") (new_mail join) udp_box ≡ ok (typed_mail, udp_box, [])
unfolding write_mail_line read_token skip_space take_token is_space make_text passes all is_graphic
    is_printable beq
write_hello = refl

refused_line :
    write_mail_buffer (codes "MSG TO Eve\r\n" ++ 0 ∷ []) (new_mail join) tcp_box
    ≡ throw (invalid message_content_field)
unfolding write_mail_buffer write_tcp_mail c_string read_line read_msg read_token skip_space
    take_token is_space make_text passes all is_graphic is_printable beq read_content get_line
    strip_blank strip_return
refused_line = refl

bye_line :
    write_mail_buffer (codes "BYE\r\n" ++ 0 ∷ []) (new_mail join) tcp_box
    ≡ ok (true, record (new_mail join) { type = bye }, [])
unfolding write_mail_buffer write_tcp_mail c_string read_line read_token skip_space take_token
    is_space beq
bye_line = refl

write_mail_buffer-IsTyped_example :
    ((true ≡ true) × IsTyped (record (new_mail join) { type = bye }))
    ⊎ ((true ≡ false)
        × (tcp_box.delivery_service ≡ tcp)
        × (record (new_mail join) { type = bye } ≡ new_mail join))
write_mail_buffer-IsTyped_example =
    write_mail_buffer-IsTyped (codes "BYE\r\n" ++ 0 ∷ []) (new_mail join)
      (record (new_mail join) { type = bye }) tcp_box true [] bye_line
