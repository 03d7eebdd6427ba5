-- ===== src/Fsm.antt =====
-- src/fsm.cpp and src/headers/fsm.h: the state machine of the main thread. The member `mailbox` is
-- a reference to the mailbox that the listener fills, so the state holds the mailbox as it is now,
-- and `out` what was printed.
pub mod Arcs
pub mod Ends
pub mod Pushes
pub mod Walks
pub mod Variants
pub mod Refine
pub mod History
use tcp_udp_chat_server.Listener.Loop.{handle}
use tcp_udp_chat_server.MailBox.State.{MailBox}
use tcp_udp_chat_server.MailBox.Queue.{get_reply, get_text, send_mail, wait_mail}
use tcp_udp_chat_server.MailBox.Local.{write_mail_type}
use tcp_udp_chat_server.Mail.Types.{Mail, MessageType, auth, bye, err, join, msg, new_mail, reply}
use tcp_udp_chat_server.Mail.Print.{Output, cerr, endl}
use tcp_udp_chat_server.Common.{
  Error, List, Result, [], codes, if◌then◌else◌, minus_one, none, ok, some, suc, throw, zero, ℕ,
  ◌++◌, ◌>>=◌, ◌∷◌,
}

pub data State : Type 0 where
  at_start at_auth at_open at_error at_end : State

pub record Fsm : Type 0 where
  pub state : State
  pub mailbox : MailBox
  pub mail : Mail
  pub out : List Output

-- `FSM(initialState, mb)`; the type of the member `mail` is not initialised.
unfoldable pub make_fsm : State → MailBox → MessageType → Fsm
make_fsm initial mb junk = record { state = initial; mailbox = mb; mail = new_mail junk; out = [] }

-- What one round of `while (1)` does: it goes on, returns, or waits for mail.
pub data Round : Type 0 where
  next : Fsm → Round
  returned : Fsm → Round
  waiting : Round
  failed : Error → Round

abbrev pub round_of : Result Fsm → Round
round_of (ok f) = next f
round_of (throw e) = failed e

-- `mailbox.sendMail(mail); state = s;`
unfoldable pub send_to : State → Fsm → Result Fsm
send_to s f = do
  (mail, mb) ← send_mail f.mail f.mailbox
  ok (record f { state = s; mailbox = mb; mail = mail })

-- `mailbox.writeMail(type, mail); mailbox.sendMail(mail); state = s;`
unfoldable pub reply_with : MessageType → State → Fsm → Result Fsm
reply_with type s f = do
  mail ← write_mail_type type f.mail minus_one f.mailbox
  send_to s (record f { mail = mail })

abbrev pub print_round : Output → Fsm → Result Fsm
print_round o f = ok (record f { out = f.out ++ o ∷ [] })

-- `std::cerr << "ERR: Unexpected message: " << std::get<TextMessage>(mail.data).MessageContent`
abbrev pub unexpected_text : Fsm → Result Fsm
unexpected_text f = do
  m ← get_text f.mail.payload
  print_round (cerr (codes "ERR: Unexpected message: " ++ m.message_content ++ endl)) f

-- `case START:` with the mail that was waited for.
unfoldable pub on_start : MessageType → Fsm → Result Fsm
on_start auth f = send_to at_auth f
on_start err f = if f.mail.sigint then reply_with bye at_end f else reply_with err at_error f
on_start msg f = unexpected_text f
on_start join f = print_round (cerr (codes "ERR: Unexpected message " ++ endl)) f
on_start _ f = reply_with err at_error f

-- `case AUTH:`
unfoldable pub on_auth : MessageType → Fsm → Result Fsm
on_auth reply f = do
  r ← get_reply f.mail.payload
  ok (record f { state = if r.result then at_open else at_auth })
on_auth auth f = send_to at_auth f
on_auth err f = reply_with bye at_end f
on_auth msg f = unexpected_text f
on_auth join f = print_round (cerr (codes "ERR: Unexpected message. " ++ endl)) f
on_auth _ f = reply_with err at_error f

-- `case OPEN:`
unfoldable pub on_open : MessageType → Fsm → Result Fsm
on_open msg f = do m ← get_text f.mail.payload; if m.to_send then send_to f.state f else ok f
on_open reply f = ok (record f { state = at_open })
on_open err f = reply_with bye at_end f
on_open bye f = ok (record f { state = at_end })
on_open join f = send_to at_open f
on_open auth f = print_round (cerr (codes "ERR: User already authenticated." ++ endl)) f
on_open _ f = reply_with err at_error f

-- `mail = mailbox.waitMail();` and the `switch` behind it.
unfoldable pub take_mail : (MessageType → Fsm → Result Fsm) → Fsm → Round
take_mail handle f = elim (wait_mail f.mailbox) [
  | none ↦ waiting
  | some r ↦
      round_of
        (r >>= λ t. handle t.0.type (record f { mail = t.0; mailbox = t.1; out = f.out ++ t.2 }))
]

-- One round of the loop, by the state.
unfoldable pub round_in : State → Fsm → Round
round_in at_start f = take_mail on_start f
round_in at_auth f = take_mail on_auth f
round_in at_open f = take_mail on_open f
round_in at_error f = round_of (reply_with bye at_end f)
round_in at_end f = returned f

abbrev pub round : Fsm → Round
round f = round_in f.state f

-- `FSM::run` for at most `fuel` rounds; it stops where it returns, fails or waits.
unfoldable pub run : ℕ → Fsm → Round
run zero f = next f
run (suc fuel) f = elim (round f) [
  | next g ↦ run fuel g
  | returned g ↦ returned g
  | waiting ↦ waiting
  | failed e ↦ failed e
]
