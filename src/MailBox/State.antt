-- ===== src/MailBox/State.antt =====
-- src/headers/mail-box.h, class MailBox: its members. The mutex and the condition variable have no
-- field: each member function is one step, and `wait_mail` says where it would block.
use tcp_udp_chat_server.Common.{ℕ, List, [], Bytes, codes, ℤ, minus_one, Option}
use tcp_udp_chat_server.Mail.Types.{Mail}
use tcp_udp_chat_server.Pipe.{Pipe}

pub data ProtocolType : Type 0 where
  tcp udp : ProtocolType

pub record MailBox : Type 0 where
  pub delivery_service : ProtocolType
  pub incoming_mails : List Mail
  pub outgoing_mails : List Mail
  pub notify_listener_pipe : Option Pipe
  pub display_name : Bytes
  pub sequence_udp_number : ℕ
  pub srv_msg_id : ℤ

-- The constructor.
abbrev pub make_mail_box : ProtocolType → Option Pipe → MailBox
make_mail_box protocol_type pipe = record {
  delivery_service = protocol_type;
  incoming_mails = [];
  outgoing_mails = [];
  notify_listener_pipe = pipe;
  display_name = codes "default";
  sequence_udp_number = 0;
  srv_msg_id = minus_one;
}
