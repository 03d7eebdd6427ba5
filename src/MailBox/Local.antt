-- ===== src/MailBox/Local.antt =====
-- src/headers/mail-box.h, MailBox::writeMail(msgType, mail, refMessageID): the mails that the
-- client makes itself.
use tcp_udp_chat_server.Common.{ℤ, pos, codes, Result, ok, ◌>>=◌}
use tcp_udp_chat_server.Mail.Types.{
  MessageType, err, bye, confirm, error_message, bye_message, confirm_message, Mail,
}
use tcp_udp_chat_server.Mail.Validate.{make_error}
use tcp_udp_chat_server.MailBox.State.{MailBox}

abbrev pub write_error : Mail → MailBox → Result Mail
write_error mail mb =
    make_error (pos mb.sequence_udp_number) mb.display_name (codes "MessageContent") >>= λ m.
    ok (record mail { type = err; payload = error_message m })

unfoldable pub write_mail_type : MessageType → Mail → ℤ → MailBox → Result Mail
write_mail_type err mail ref mb = write_error mail mb
write_mail_type bye mail ref mb = ok (record mail {
  type = bye;
  payload = bye_message (record { message_id = pos mb.sequence_udp_number });
})
write_mail_type confirm mail ref mb =
    ok (record mail { type = confirm; payload = confirm_message (record { ref_message_id = ref }) })
write_mail_type _ mail ref mb = write_error mail mb
