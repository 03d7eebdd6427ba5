-- ===== src/Listener/Confirm.antt =====
-- src/listeners.cpp: which CONFIRM ends the wait, and what stays while it lasts.
use tcp_udp_chat_server.Net.{send_data}
use tcp_udp_chat_server.MailBox.State.{udp}
use tcp_udp_chat_server.MailBox.Local.{write_mail_type}
use tcp_udp_chat_server.Mail.Types.{Mail, MessageType, confirm, data_message_id, get_message_id}
use tcp_udp_chat_server.Mail.Print.{Output}
use tcp_udp_chat_server.Listener.State.{Listener}
use tcp_udp_chat_server.Listener.Handlers.{
  dispatch_udp, on_confirm, on_other, on_reply, receive_mail, send, set_srv_msg_id,
}
use tcp_udp_chat_server.Common.{Bool, List, arith, false, minus_one, ok, true, ◌≡◌, ◌⊎◌}

-- The wait for a CONFIRM, as it is kept or ended from `l` to `k`.
pub record SameWait (l k : Listener) : Type 0 where
  pub confirm_is : k.received_confirm ≡ l.received_confirm
  pub conf_mail_is : k.conf_mail ≡ l.conf_mail
  pub ref_msg_id_is : k.ref_msg_id ≡ l.ref_msg_id
  pub retries_is : k.retries ≡ l.retries

-- A mail that comes by UDP while a CONFIRM is awaited, where receiving it returns: either it is the
-- CONFIRM of the awaited id, which ends the wait and clears the retries, or the wait goes on
-- unchanged.
pub receive_mail_waits :
    (junk : MessageType) (mail : Mail) (out o : List Output) (l k : Listener) (b : Bool)
    → l.protocol_type ≡ udp
    → l.received_confirm ≡ false
    → receive_mail junk mail out l ≡ ok (b, k, o)
    → ((mail.type ≡ confirm)
        × (get_message_id mail ≡ l.ref_msg_id)
        × (k.received_confirm ≡ true)
        × (k.retries ≡ 0)
        × (k.ref_msg_id ≡ minus_one))
      ⊎ SameWait l k
unfolding receive_mail write_mail_type dispatch_udp on_reply on_confirm on_other send send_data
    set_srv_msg_id data_message_id
receive_mail_waits junk mail out o l k b u w e = ground arith
