-- ===== src/Program/Steps.antt =====
-- The steps of the program: of the main thread between two accesses to the mailbox, and of the
-- listener for each event. Steps of the two threads come in any order. An exception is no step, and
-- what comes behind it is left out: so is the unwinding of runMain, whose destructors join the
-- threads.
use tcp_udp_chat_server.Program.State.{
  with_out, Program, fsm_of, holding, looping, took_one, with_fsm, with_listener, written_to,
}
use tcp_udp_chat_server.MailBox.State.{MailBox}
use tcp_udp_chat_server.MailBox.Queue.{wait_mail}
use tcp_udp_chat_server.Mail.Types.{Mail, MessageType, bye}
use tcp_udp_chat_server.Mail.Print.{Output}
use tcp_udp_chat_server.Listener.State.{Listener, chunk}
use tcp_udp_chat_server.Listener.Loop.{
  Event, handle, request_stop, retry, to_send_ready, toggle_to_send,
}
use tcp_udp_chat_server.Listener.Fills.{is_to_send}
use tcp_udp_chat_server.Fsm.{
  Fsm, State, at_auth, at_end, at_error, at_open, at_start, on_auth, on_open, on_start, reply_with,
}
use tcp_udp_chat_server.Common.{
  Bool, List, Result, [], false, ok, some, true, ℕ, ◌++◌, ◌<◌, ◌∷◌, ◌≡◌,
}

-- The states in which FSM::run waits for mail.
abbrev pub waits_in : State → Bool
waits_in at_start = true
waits_in at_auth = true
waits_in at_open = true
waits_in _ = false

-- The `switch` on the type of the mail, by the state.
abbrev pub handler_in : State → MessageType → Fsm → Result Fsm
handler_in at_start = on_start
handler_in at_auth = on_auth
handler_in at_open = on_open
handler_in at_error = λ t. reply_with bye at_end
handler_in at_end = λ t f. ok f

pub data Step (junk : MessageType) (p q : Program) : Type 0 where
  -- `mail = mailbox.waitMail();`
  main_takes :
      (m : Mail) (mb : MailBox) (o : List Output)
      → p.doing ≡ looping
      → waits_in p.state ≡ true
      → wait_mail p.listener.mailbox ≡ some (ok (m, mb, o))
      → q
        ≡ with_fsm (record { state = p.state; mailbox = mb; mail = m; out = p.out ++ o }) holding p
      → Step junk p q
  -- what is done with the mail
  main_handles :
      (g : Fsm)
      → p.doing ≡ holding
      → waits_in p.state ≡ true
      → handler_in p.state p.mail.type (fsm_of p) ≡ ok g
      → q ≡ with_fsm g looping p
      → Step junk p q
  -- `case ERROR:`
  main_gives_up :
      (g : Fsm)
      → p.doing ≡ looping
      → p.state ≡ at_error
      → reply_with bye at_end (fsm_of p) ≡ ok g
      → q ≡ with_fsm g looping p
      → Step junk p q
  -- `myListener.stop()`, once `run` has returned
  main_stops :
      p.doing ≡ looping
      → p.state ≡ at_end
      → q ≡ with_listener (request_stop p.listener) p
      → Step junk p q
  -- an event of another descriptor than the one of the mails to send
  thread_hears :
      (e : Event) (k : Listener) (o : List Output)
      → is_to_send e ≡ false
      → handle junk e p.listener [] ≡ ok (k, o)
      → q ≡ with_out (p.out ++ o) (with_listener k p)
      → Step junk p q
  -- a byte in the pipe that announces mails, while it is watched
  thread_sends :
      (byte : ℕ) (k : Listener) (o : List Output)
      → p.reads < written_to p.listener.mailbox.notify_listener_pipe
      → p.listener.to_send_registered ≡ true
      → handle junk (to_send_ready (chunk (byte ∷ []))) p.listener [] ≡ ok (k, o)
      → q ≡ with_out (p.out ++ o) (took_one k p)
      → Step junk p q
  -- the top of a round of the loop
  thread_turns : q ≡ with_listener (toggle_to_send p.listener) p → Step junk p q
  -- the timeout, which is set only while a CONFIRM is awaited
  thread_times_out :
      (k : Listener)
      → p.listener.received_confirm ≡ false
      → retry p.listener ≡ ok k
      → q ≡ with_listener k p
      → Step junk p q

pub data Reach (junk : MessageType) (p : Program) : Program → Type 0 where
  here : Reach junk p p
  later : {q r : Program} → Reach junk p q → Step junk q r → Reach junk p r

pub Reach-trans :
    (junk : MessageType) (p q r : Program) → Reach junk p q → Reach junk q r → Reach junk p r
Reach-trans junk p q r a here = a
Reach-trans junk p q r a (later {q = m} b s) = later (Reach-trans junk p q m a b) s
