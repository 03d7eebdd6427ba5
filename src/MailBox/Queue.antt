-- ===== src/MailBox/Queue.antt =====
-- src/headers/mail-box.h, class MailBox: waitMail, getOutgoingMail, addMail and sendMail.
use tcp_udp_chat_server.Common.{
  ℕ, ◌+◌, ◌%◌, Bool, true, false, List, [], ◌∷◌, ◌++◌, codes, if◌then◌else◌, pos, u16_mod, Option,
  none, some, Result, ok, throw, ◌>>=◌, out_of_bounds, bad_variant_access,
}
use tcp_udp_chat_server.Mail.Types.{
  MessageType, err, msg, reply, MessageData, confirm_message, auth_message, join_message,
  error_message, bye_message, text_message, reply_message, unknown_message, ErrorMessage,
  TextMessage, ReplyMessage, Mail,
}
use tcp_udp_chat_server.Mail.Print.{Output, cout, cerr, endl}
use tcp_udp_chat_server.Pipe.{Pipe, write}
use tcp_udp_chat_server.MailBox.State.{MailBox}

-- `std::get<ErrorMessage>(mail.data)`, and so on.
abbrev pub get_error : MessageData → Result ErrorMessage
get_error (error_message m) = ok m
get_error _ = throw bad_variant_access

abbrev pub get_text : MessageData → Result TextMessage
get_text (text_message m) = ok m
get_text _ = throw bad_variant_access

abbrev pub get_reply : MessageData → Result ReplyMessage
get_reply (reply_message m) = ok m
get_reply _ = throw bad_variant_access

-- What `waitMail` prints of the mail that it takes.
unfoldable pub announce_as : MessageType → Mail → Result (List Output)
announce_as err mail =
    if mail.sigint
    then ok []
    else (get_error mail.payload >>= λ e. ok (
        cerr (codes "ERR FROM " ++ e.display_name ++ codes ": " ++ e.message_content ++ endl) ∷ []))
announce_as msg mail = get_text mail.payload >>= λ m. ok (
    if m.to_send then [] else cout (m.display_name ++ codes ": " ++ m.message_content ++ endl) ∷ [])
announce_as reply mail = get_reply mail.payload >>= λ r. ok (
    cerr
      (codes (if r.result then "Success" else "Failure") ++ codes ": " ++ r.message_content ++ endl)
    ∷ [])
announce_as _ mail = ok []

abbrev pub Taken : Type 0
Taken = Mail × MailBox × List Output

take_first : List Mail → MailBox → Option (Result Taken)
take_first [] mb = none
take_first (mail ∷ rest) mb =
    some (announce_as mail.type mail >>= λ out. ok (mail, record mb { incoming_mails = rest }, out))

-- `waitMail`; none where it waits on.
unfoldable pub wait_mail : MailBox → Option (Result Taken)
unfolding announce_as take_first
wait_mail mb = take_first mb.incoming_mails mb

pop_outgoing : List Mail → MailBox → Result (Mail × MailBox)
pop_outgoing [] mb = throw out_of_bounds
pop_outgoing (mail ∷ rest) mb = ok (mail, record mb { outgoing_mails = rest })

-- `getOutgoingMail`.
unfoldable pub get_outgoing_mail : MailBox → Result (Mail × MailBox)
unfolding pop_outgoing
get_outgoing_mail mb = pop_outgoing mb.outgoing_mails mb

-- `addMail`.
unfoldable pub add_mail : Mail → MailBox → MailBox
add_mail mail mb =
    if mail.add_to_mail_queue
    then record mb { incoming_mails = mb.incoming_mails ++ mail ∷ [] }
    else mb

-- Whether `sendMail` numbers the mail.
unfoldable pub is_numbered : MessageData → Bool
is_numbered (confirm_message m) = false
is_numbered (unknown_message m) = false
is_numbered _ = true

-- `arg.MessageID = n`, for the alternatives that `sendMail` numbers.
unfoldable pub number_data : ℕ → MessageData → MessageData
number_data n (auth_message m) = auth_message (record m { message_id = n })
number_data n (join_message m) = join_message (record m { message_id = pos n })
number_data n (error_message m) = error_message (record m { message_id = pos n })
number_data n (bye_message m) = bye_message (record m { message_id = pos n })
number_data n (text_message m) = text_message (record m { message_id = pos n })
number_data n (reply_message m) = reply_message (record m { message_id = pos n })
number_data n (confirm_message m) = confirm_message m
number_data n (unknown_message m) = unknown_message m

-- `sequenceUDPNumber++`, where the mail is numbered; a `uint16_t` wraps.
unfoldable pub next_number : MessageData → ℕ → ℕ
unfolding is_numbered
next_number m n = if is_numbered m then (n + 1) % u16_mod else n

-- `if (notifyListenerPipe != nullptr) notifyListenerPipe->write("1");`
unfoldable pub notify : Option Pipe → Result (Option Pipe)
notify none = ok none
notify (some p) = write p (codes "1") >>= λ q. ok (some q)

-- `sendMail`: the mail as it was numbered, and the mailbox.
unfoldable pub send_mail : Mail → MailBox → Result (Mail × MailBox)
unfolding number_data next_number notify
send_mail mail mb =
    if mail.add_to_mail_queue
    then (let sent = record mail { payload = number_data mb.sequence_udp_number mail.payload } in
        notify mb.notify_listener_pipe >>= λ pipe. ok (
          sent,
          record mb {
            sequence_udp_number = next_number mail.payload mb.sequence_udp_number;
            outgoing_mails = mb.outgoing_mails ++ sent ∷ [];
            notify_listener_pipe = pipe;
          },
        ))
    else ok (mail, mb)
