-- ===== src/Tests/Codecs.antt =====
-- The serializer and the readers on concrete mails.
use tcp_udp_chat_server.Console.{print_green, print_in, print_red}
use tcp_udp_chat_server.Net.Hex.{convert_buffer_to_hex_string}
use tcp_udp_chat_server.Mail.Print.{decimal}
use tcp_udp_chat_server.Net.Log.{log_tcp, log_tcp-overreads, log_udp}
use tcp_udp_chat_server.Mail.Print.{cout}
use tcp_udp_chat_server.Tests.Data.{mail_of, auth_mail}
use tcp_udp_chat_server.Serializer.Grammar.{crlf, line_of, serialize-line_of}
use tcp_udp_chat_server.Serializer.{serialize_data, serialize_string, serialize_uint16, serialize}
use tcp_udp_chat_server.MailBox.Udp.RoundTrip.{arrival, complaint, write_udp_mail-serialize}
use tcp_udp_chat_server.MailBox.Udp.Ids.{confirm_read_iff}
use tcp_udp_chat_server.MailBox.Udp.Bounds.{array_with, write_udp_mail-InBounds}
use tcp_udp_chat_server.MailBox.Udp.{
  read_body, read_char, read_string, read_uint16, uint16_of, received, write_udp_mail,
}
use tcp_udp_chat_server.MailBox.Tcp.RoundTrip.{tcp_arrival, write_tcp_mail-serialize}
use tcp_udp_chat_server.MailBox.Tcp.{write_tcp_mail}
use tcp_udp_chat_server.MailBox.State.{udp}
use tcp_udp_chat_server.Mail.Validate.{is_printable, make_reply, is_graphic, is_word, passes}
use tcp_udp_chat_server.Mail.Valid.{IsValid}
use tcp_udp_chat_server.Mail.Types.{
  bye, bye_message, reply, reply_message, type_code, type_of_code, type_of_data, ReplyMessage, auth,
  confirm, confirm_message, msg, new_mail,
}
use tcp_udp_chat_server.Common.{
  to_uint16, Bytes, [], all, arith, codes, false, ok, out_of_bounds, pos, refl, throw, true, ◌++◌,
  ◌<◌, ◌↔◌, ◌∷◌, ◌≡◌, ◌≢◌, ◌≤◌, ◌⊎◌,
}

auth-IsValid : IsValid auth_mail.payload
unfolding IsValid passes all is_word is_graphic
auth-IsValid = (refl, refl, refl)

write_udp_mail-serialize_example :
    write_udp_mail udp (serialize true auth_mail ++ 0 ∷ []) (new_mail msg)
    ≡ ok (true, arrival udp (new_mail msg) auth_mail.payload, complaint auth)
unfolding type_of_data
write_udp_mail-serialize_example =
    write_udp_mail-serialize auth_mail udp (0 ∷ []) (new_mail msg) refl auth-IsValid (λ e. cc)

write_tcp_mail-serialize_example :
    write_tcp_mail 7 (serialize false auth_mail ++ (codes "BYE\r\n" ++ 0 ∷ [])) (new_mail msg)
    ≡ tcp_arrival 7 auth_mail.payload (new_mail msg)
unfolding type_of_data all
write_tcp_mail-serialize_example =
    write_tcp_mail-serialize auth_mail 7 (codes "BYE\r\n") [] (new_mail msg) refl auth-IsValid
      (λ e. cc) refl

log_tcp-overreads_example : log_tcp false (codes "127.0.0.1") 4567 auth_mail ≡ throw out_of_bounds
unfolding type_of_data
log_tcp-overreads_example =
    log_tcp-overreads false (codes "127.0.0.1") 4567 auth_mail refl auth-IsValid

-- What -v prints of a BYE by UDP.
logged_bye :
    log_udp true (codes "::1") 7 (mail_of bye (bye_message (record { message_id = pos 1 })))
    ≡ cout (0x1b ∷ codes "[1;31mSending data: ff0001 to ::1 on port 7" ++ 0x1b ∷ codes "[0m\n")
      ∷ cout (0x1b ∷ codes "[1;32mSending data to ::1 on port 7" ++ 0x1b ∷ codes "[0m\n")
      ∷ []
unfolding log_udp print_red print_in convert_buffer_to_hex_string print_green serialize decimal
    type_code serialize_data serialize_uint16 to_uint16
logged_bye = refl

serialize-line_of_example : serialize false auth_mail ≡ line_of auth_mail.payload ++ crlf
unfolding type_of_data
serialize-line_of_example = serialize-line_of auth_mail refl

-- A MSG datagram, cut off in its content.
abbrev cut_off : Bytes
cut_off = 4 ∷ 0 ∷ 9 ∷ codes "Eve" ++ 0 ∷ codes "hi"

write_udp_mail-InBounds_example :
    write_udp_mail udp (array_with cut_off) (new_mail msg) ≢ throw out_of_bounds
write_udp_mail-InBounds_example = write_udp_mail-InBounds udp cut_off (new_mail msg) (omega arith)

confirm_read_iff_example :
    (write_udp_mail udp (0 ∷ 0 ∷ 128 ∷ []) (new_mail msg)
      ≡ received confirm
          (confirm_message (record { ref_message_id = pos 128 }))
          false
          (new_mail msg))
    ↔ ((128 < 128) ⊎ (0xff00 ≤ 128))
confirm_read_iff_example = confirm_read_iff 128 udp [] (new_mail msg) (omega arith)

-- A REPLY to message 65, the code of `A`.
abbrev granted_reply : ReplyMessage
granted_reply = record {
  message_id = pos 1;
  result = true;
  ref_message_id = pos 65;
  message_content = codes "Hi";
}

-- What is read of it: the byte of the id has become the first of the content.
abbrev reread_reply : ReplyMessage
reread_reply = record {
  message_id = pos 1;
  result = false;
  ref_message_id = pos 256;
  message_content = codes "AHi";
}

reread_granted :
    write_udp_mail udp
      (type_code reply ∷ (serialize_data true (reply_message granted_reply) ++ 0 ∷ []))
      (new_mail msg)
    ≡ ok (true, mail_of reply (reply_message reread_reply), [])
unfolding write_udp_mail read_char read_body read_uint16 uint16_of read_string serialize_data
    serialize_uint16 serialize_string type_of_code type_code make_reply passes all is_printable
    to_uint16
reread_granted = refl
