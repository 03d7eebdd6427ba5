-- ===== src/MailBox/Laws.antt =====
-- What MailBox::sendMail does to the mailbox, and which mails the writers make.
use tcp_udp_chat_server.MailBox.State.{MailBox}
use tcp_udp_chat_server.MailBox.Queue.{
  announce_as, wait_mail, next_number, notify, number_data, send_mail,
}
use tcp_udp_chat_server.Mail.Types.{Mail, bye, type_of_data, unknown}
use tcp_udp_chat_server.Common.{List, none, some, ◌>>=◌, [], arith, ok, true, ◌++◌, ◌∷◌, ◌≡◌, ◌⊎◌}

-- A mail that `sendMail` takes: it is numbered, put at the end of the queue, and announced on the
-- pipe; the other members stay.
pub record Sends (mail : Mail) (mb : MailBox) (sent : Mail) (mb' : MailBox) : Type 0 where
  pub sent_is : sent ≡ record mail { payload = number_data mb.sequence_udp_number mail.payload }
  pub queue_is : mb'.outgoing_mails ≡ mb.outgoing_mails ++ sent ∷ []
  pub number_is : mb'.sequence_udp_number ≡ next_number mail.payload mb.sequence_udp_number
  pub incoming_is : mb'.incoming_mails ≡ mb.incoming_mails
  pub name_is : mb'.display_name ≡ mb.display_name
  pub service_is : mb'.delivery_service ≡ mb.delivery_service
  pub srv_is : mb'.srv_msg_id ≡ mb.srv_msg_id
  pub told : notify mb.notify_listener_pipe ≡ ok mb'.notify_listener_pipe

-- Where `sendMail` returns and the mail is to be queued, it has numbered the mail, put it at the
-- end of the outgoing queue, advanced the number, and told the pipe; the other members of the
-- mailbox stay.
pub send_mail-Sends :
    (mail sent : Mail) (mb mb' : MailBox)
    → mail.add_to_mail_queue ≡ true
    → send_mail mail mb ≡ ok (sent, mb')
    → Sends mail mb sent mb'
unfolding send_mail
send_mail-Sends mail sent mb mb' a e = ground (arith)

-- A mail whose type is that of its data, or whose data no one reads by its type.
abbrev pub IsTyped : Mail → Type 0
IsTyped m = (m.type ≡ type_of_data m.payload) ⊎ (m.type ≡ bye) ⊎ (m.type ≡ unknown)

pub wait_mail-nil : (mb : MailBox) → mb.incoming_mails ≡ [] → wait_mail mb ≡ none
unfolding wait_mail
wait_mail-nil mb e = ground arith

pub wait_mail-cons :
    (mb : MailBox) (m : Mail) (l : List Mail)
    → mb.incoming_mails ≡ m ∷ l
    → wait_mail mb
      ≡ some (announce_as m.type m >>= λ out. ok (m, record mb { incoming_mails = l }, out))
unfolding wait_mail
wait_mail-cons mb m l e = ground arith
