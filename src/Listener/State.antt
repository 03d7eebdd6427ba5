-- ===== src/Listener/State.antt =====
-- src/headers/listeners.h, class Listener: its members, but for the thread and the map of
-- descriptors, for which the events of the loop carry the type that the map gives.
use tcp_udp_chat_server.Net.{Connection}
use tcp_udp_chat_server.MailBox.State.{MailBox, ProtocolType}
use tcp_udp_chat_server.Mail.Types.{Mail, MessageType, new_mail}
use tcp_udp_chat_server.Common.{Bool, Bytes, false, minus_one, true, ℕ, ℤ}

pub record Listener : Type 0 where
  pub mailbox : MailBox
  pub connection : Connection
  pub protocol_type : ProtocolType
  pub conf_mail : Mail
  pub received_confirm : Bool
  pub to_send_registered : Bool
  pub retries : ℕ
  pub ref_msg_id : ℤ
  pub ref_auth_id : ℤ
  pub keep_running : Bool
  pub sent_bye : Bool

-- The constructor; `confMail` has no type yet.
unfoldable pub make_listener : MailBox → Connection → ProtocolType → MessageType → Listener
make_listener mb c protocol junk = record {
  mailbox = mb;
  connection = c;
  protocol_type = protocol;
  conf_mail = new_mail junk;
  received_confirm = true;
  to_send_registered = true;
  retries = 0;
  ref_msg_id = minus_one;
  ref_auth_id = minus_one;
  keep_running = true;
  sent_bye = false;
}

-- What `read` on one of the pipes finds: EAGAIN, another error, the end, or the bytes that the pipe
-- holds. Of these it takes as many as there is room for; the others stay in the pipe, for the next
-- `read`.
pub data PipeRead : Type 0 where
  try_again broken at_eof : PipeRead
  chunk : Bytes → PipeRead
