-- ===== src/Tests/Steps.antt =====
-- Tests of the signal, of the keyboard, of the wait for a CONFIRM and of the login.
use tcp_udp_chat_server.Program.Login.Answers.{answering_turns, own_confirm}
use tcp_udp_chat_server.Tests.Typing.{typed_auth, typed_auth-IsValid}
use tcp_udp_chat_server.Program.Turns.{run_turns}
use tcp_udp_chat_server.Program.Login.Lines.{asking_turns, auth_with}
use tcp_udp_chat_server.Program.Login.Complete.{login}
use tcp_udp_chat_server.Mail.Print.{cerr, endl}
use tcp_udp_chat_server.StdinListener.Stop.{stdin_round, stop_stdin}
use tcp_udp_chat_server.Pipe.{write}
use tcp_udp_chat_server.StdinListener.Stop.{
  make_stdin_listener, pipes_of, run_thread, selected, stop_called,
}
use tcp_udp_chat_server.StdinListener.Rounds.{end_of_input, run_stdin, typed_line}
use tcp_udp_chat_server.Program.Interrupt.{ends_with_bye, handle_signal}
use tcp_udp_chat_server.Mail.Validate.{is_printable, is_graphic, passes}
use tcp_udp_chat_server.Listener.Loop.{signal_ready}
use tcp_udp_chat_server.Mail.Types.{Mail}
use tcp_udp_chat_server.ArgumentParser.Parse.{make_args}
use tcp_udp_chat_server.Net.{send_data}
use tcp_udp_chat_server.Listener.Handlers.{send}
use tcp_udp_chat_server.Common.{◌++◌, all}
use tcp_udp_chat_server.Listener.Unconfirmed.{confirms, is_quiet}
use tcp_udp_chat_server.MailBox.Udp.{uint16_of}
use tcp_udp_chat_server.Tests.Thread.{stray_round, stray_confirm, unwatched}
use tcp_udp_chat_server.Tests.Data.{auth_mail, ready_pipe, waiting_listener}
use tcp_udp_chat_server.Tests.Composed.{started, args_of, asked, asked_Reach}
use tcp_udp_chat_server.Serializer.{serialize}
use tcp_udp_chat_server.Program.Variants.{never_bad_variant}
use tcp_udp_chat_server.Program.Steps.{Reach, handler_in}
use tcp_udp_chat_server.Program.State.{
  given_to_send, with_listener, Program, fsm_of, looping, start_program,
}
use tcp_udp_chat_server.MailBox.State.{tcp, udp}
use tcp_udp_chat_server.MailBox.Queue.{wait_mail}
use tcp_udp_chat_server.Mail.Types.{bye, msg}
use tcp_udp_chat_server.Listener.Waits.{KeepsWaiting, run_listener-KeepsWaiting}
use tcp_udp_chat_server.Listener.Unconfirmed.{is_quiet_wake}
use tcp_udp_chat_server.Listener.State.{Listener, chunk}
use tcp_udp_chat_server.Listener.Loop.{
  goes_on, toggle_to_send, Event, Wake, handle, loop_round, retry, timed_out,
}
use tcp_udp_chat_server.Listener.Hang.{run_listener}
use tcp_udp_chat_server.Fsm.{at_open, at_end, reply_with}
use tcp_udp_chat_server.Common.{
  List, [], arith, bad_variant_access, codes, ok, refl, some, throw, true, ◌∷◌, ◌≡◌, ◌≢◌, ◌⊎◌,
}

never_bad_variant_example :
    (wait_mail (asked udp).listener.mailbox ≢ some (throw bad_variant_access))
    × (((asked udp).doing ≡ looping)
        ⊎ (handler_in (asked udp).state (asked udp).mail.type (fsm_of (asked udp))
            ≢ throw bad_variant_access))
    × (reply_with bye at_end (fsm_of (asked udp)) ≢ throw bad_variant_access)
    × ((e : Event) → handle msg e (asked udp).listener [] ≢ throw bad_variant_access)
    × (retry (asked udp).listener ≢ throw bad_variant_access)
unfolding make_args
never_bad_variant_example =
    never_bad_variant msg (args_of udp) ready_pipe (asked udp) refl refl refl (asked_Reach udp)

-- Two rounds while the CONFIRM of the AUTH with the id 0 is awaited: the CONFIRM of another id
-- comes, and then no event.
abbrev quiet_run : List Wake
quiet_run = stray_confirm ∷ timed_out ∷ []

abbrev retried_listener : Listener
retried_listener = record unwatched {
  retries = 1;
  connection = record unwatched.connection { sent = serialize true auth_mail ∷ [] };
}

timeout_round : loop_round msg timed_out unwatched ≡ ok (retried_listener, [])
unfolding loop_round toggle_to_send retry send send_data
timeout_round = refl

quiet_run_ends : run_listener msg quiet_run waiting_listener ≡ ok retried_listener
unfolding run_listener goes_on
quiet_run_ends = rw (stray_round, timeout_round) refl

run_listener-KeepsWaiting_example : KeepsWaiting waiting_listener retried_listener
unfolding is_quiet_wake all is_quiet confirms uint16_of
run_listener-KeepsWaiting_example =
    run_listener-KeepsWaiting msg quiet_run waiting_listener retried_listener
      (record { protocol_is = refl; service_is = refl; connection_is = refl }) refl refl
      quiet_run_ends

-- At the start, with nothing waiting: the user interrupts the program.
ends_with_bye_example :
    (handle_signal ready_pipe
      ≡ ok (record ready_pipe { written = ready_pipe.written ++ codes "1" }))
    × (run_stdin (end_of_input ∷ []) ready_pipe ready_pipe
        ≡ ok (ready_pipe, record ready_pipe { written = ready_pipe.written ++ codes "1" }))
    × ((q : Program) × (k : Listener) × (handle msg
            (signal_ready (chunk (codes "1")))
            (started udp).listener
            []
          ≡ ok (k, []))
        × Reach msg (with_listener k (started udp)) q
        × (q.state ≡ at_end)
        × ((m : Mail) × (m.type ≡ bye) × (given_to_send q ≡ given_to_send (started udp) ++ m ∷ [])))
unfolding start_program passes all is_graphic
ends_with_bye_example =
    ends_with_bye msg (started udp) ready_pipe ready_pipe ready_pipe
      (record { has_fd = refl; no_failure = refl }) refl refl refl refl refl
      (record { has_fd = refl; no_failure = refl })

-- A line, and then `stop`: what comes behind it is not read.
stopped_keyboard :
    pipes_of (
      run_thread
        (selected (typed_line (codes "hi")) ∷ stop_called ∷ selected end_of_input ∷ [])
        (make_stdin_listener ready_pipe)
        ready_pipe)
    ≡ ok (record ready_pipe { written = codes "hi\n" }, ready_pipe)
unfolding run_thread make_stdin_listener stdin_round write stop_stdin
stopped_keyboard = refl

-- A user with a name comes into the conversation; the REPLY has the id 7 and comes from a port of
-- its own.
login_example :
    (q : Program) × (run_turns msg
        (asking_turns typed_auth ++ answering_turns 4567 50000 0 7 (codes "hi"))
        (start_program msg (record (args_of tcp) { type = udp }) ready_pipe)
      ≡ ok q)
    × Reach msg (start_program msg (record (args_of tcp) { type = udp }) ready_pipe) q
    × (q.state ≡ at_open)
    × (q.listener.connection.sent
        ≡ serialize true (auth_with msg typed_auth 0)
          ∷ serialize true (own_confirm msg (uint16_of 0 7))
          ∷ [])
    × (q.listener.received_confirm ≡ true)
    × (q.out ≡ cerr (codes "Success: " ++ codes "hi" ++ endl) ∷ [])
    × (q.listener.connection.port ≡ 50000)
unfolding passes all is_printable
login_example =
    login msg (args_of tcp) ready_pipe typed_auth 4567 50000 0 7 (codes "hi") typed_auth-IsValid
      (record { has_fd = refl; no_failure = refl }) refl (omega arith)
