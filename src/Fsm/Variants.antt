-- ===== src/Fsm/Variants.antt =====
-- src/fsm.cpp, FSM::run: no state asks a mail for an alternative that it does not hold.
use tcp_udp_chat_server.Pipe.{write}
use tcp_udp_chat_server.MailBox.Queue.{notify, send_mail}
use tcp_udp_chat_server.MailBox.Local.{write_mail_type}
use tcp_udp_chat_server.Program.Steps.{handler_in}
use tcp_udp_chat_server.MailBox.Variants.{>>=-GetsRight, GetsRight, write_mail_type-GetsRight}
use tcp_udp_chat_server.MailBox.Laws.{IsTyped}
use tcp_udp_chat_server.Mail.Types.{MessageType, bye, type_of_data}
use tcp_udp_chat_server.Fsm.{
  Fsm, State, at_auth, at_end, at_error, at_open, at_start, on_auth, on_open, on_start, reply_with,
  send_to,
}
use tcp_udp_chat_server.Common.{minus_one, arith}

send_to-GetsRight : (s : State) (f : Fsm) → GetsRight (send_to s f)
unfolding send_to send_mail notify write
send_to-GetsRight s f e = ground arith

pub reply_with-GetsRight :
    (type : MessageType) (s : State) (f : Fsm) → GetsRight (reply_with type s f)
unfolding reply_with
reply_with-GetsRight type s f e =
    >>=-GetsRight (write_mail_type type f.mail minus_one f.mailbox) _
      (write_mail_type-GetsRight type f.mail minus_one f.mailbox)
      (λ mail _. send_to-GetsRight s (record f { mail = mail })) e

on_start-GetsRight : (f : Fsm) → IsTyped f.mail → GetsRight (on_start f.mail.type f)
unfolding on_start type_of_data
on_start-GetsRight f t e = grind (arith, send_to-GetsRight, reply_with-GetsRight)

on_auth-GetsRight : (f : Fsm) → IsTyped f.mail → GetsRight (on_auth f.mail.type f)
unfolding on_auth type_of_data
on_auth-GetsRight f t e = grind (arith, send_to-GetsRight, reply_with-GetsRight)

on_open-GetsRight : (f : Fsm) → IsTyped f.mail → GetsRight (on_open f.mail.type f)
unfolding on_open type_of_data
on_open-GetsRight f t e = grind (arith, send_to-GetsRight, reply_with-GetsRight)

-- What is done, in any state, with a mail that has the type of its data.
pub handler_in-GetsRight :
    (s : State) (f : Fsm) → IsTyped f.mail → GetsRight (handler_in s f.mail.type f)
handler_in-GetsRight at_start f t = on_start-GetsRight f t
handler_in-GetsRight at_auth f t = on_auth-GetsRight f t
handler_in-GetsRight at_open f t = on_open-GetsRight f t
handler_in-GetsRight at_error f t = reply_with-GetsRight bye at_end f
handler_in-GetsRight at_end f t = λ e. cc
