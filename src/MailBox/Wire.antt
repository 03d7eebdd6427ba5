-- ===== src/MailBox/Wire.antt =====
-- src/headers/mail-box.h, MailBox::writeMail(buffer, mail): the choice by the delivery service.
use tcp_udp_chat_server.MailBox.Udp.{Received, write_udp_mail}
use tcp_udp_chat_server.MailBox.Tcp.{write_tcp_mail}
use tcp_udp_chat_server.MailBox.State.{MailBox, tcp, udp}
use tcp_udp_chat_server.Mail.Types.{Mail}
use tcp_udp_chat_server.Common.{Bytes, Result}

-- `writeMail(char **, Mail &)`.
unfoldable pub write_mail_buffer : Bytes → Mail → MailBox → Result Received
write_mail_buffer buffer mail mb = elim mb.delivery_service [
  | udp ↦ write_udp_mail mb.delivery_service buffer mail
  | tcp ↦ write_tcp_mail mb.sequence_udp_number buffer mail
]
