-- ===== src/Program/State.antt =====
-- src/main.cpp, runMain: the objects that it makes, and where each thread is.
use tcp_udp_chat_server.Pipe.{Pipe}
use tcp_udp_chat_server.Net.{make_connection}
use tcp_udp_chat_server.MailBox.State.{make_mail_box}
use tcp_udp_chat_server.Mail.Types.{Mail, MessageType, new_mail}
use tcp_udp_chat_server.Mail.Print.{Output}
use tcp_udp_chat_server.Listener.State.{Listener, make_listener}
use tcp_udp_chat_server.Fsm.{Fsm, State, at_start}
use tcp_udp_chat_server.Common.{List, Option, [], length, none, some, suc, ℕ, ◌++◌, ◌∷◌}
use tcp_udp_chat_server.ArgumentParser.Parse.{Args}

-- Whether FSM::run is about to begin a round, or holds the mail that `waitMail` has given it.
pub data Doing : Type 0 where
  looping holding : Doing

-- The main thread's state machine, and the listener with the mailbox that both share. `out` is what
-- either thread has printed so far. `reads` counts the bytes that were read from the pipe that
-- announces mails to send, and `taken` holds what `getOutgoingMail` has given so far.
pub record Program : Type 0 where
  pub state : State
  pub mail : Mail
  pub doing : Doing
  pub out : List Output
  pub listener : Listener
  pub reads : ℕ
  pub taken : List Mail

-- `runMain` up to `fsm.run()`, with the pipe that was made.
unfoldable pub start_program : MessageType → Args → Pipe → Program
unfolding make_listener make_connection
start_program junk a pipe = record {
  state = at_start;
  mail = new_mail junk;
  doing = looping;
  out = [];
  listener =
      make_listener (make_mail_box a.type (some pipe))
        (make_connection a.type a.port a.timeout a.retries) a.type junk;
  reads = 0;
  taken = [];
}

-- The state machine, which refers to the shared mailbox.
abbrev pub fsm_of : Program → Fsm
fsm_of p = record { state = p.state; mailbox = p.listener.mailbox; mail = p.mail; out = p.out }

-- What the state machine has made of it.
abbrev pub with_fsm : Fsm → Doing → Program → Program
with_fsm g doing p = record p {
  state = g.state;
  mail = g.mail;
  out = g.out;
  doing = doing;
  listener = record p.listener { mailbox = g.mailbox };
}

abbrev pub with_listener : Listener → Program → Program
with_listener k p = record p { listener = k }

-- The program, with what it has printed so far.
abbrev pub with_out : List Output → Program → Program
with_out o p = record p { out = o }

-- How many bytes were written into the pipe that announces mails.
abbrev pub written_to : Option Pipe → ℕ
written_to none = 0
written_to (some p) = length p.written

abbrev pub first_of : List Mail → List Mail
first_of [] = []
first_of (m ∷ rest) = m ∷ []

-- One byte was read, and one mail was taken.
abbrev pub took_one : Listener → Program → Program
took_one k p = record p {
  listener = k;
  reads = suc p.reads;
  taken = p.taken ++ first_of p.listener.mailbox.outgoing_mails;
}

-- All mails that were given to `sendMail`, in order.
abbrev pub given_to_send : Program → List Mail
given_to_send p = p.taken ++ p.listener.mailbox.outgoing_mails
