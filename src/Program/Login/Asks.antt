-- ===== src/Program/Login/Asks.antt =====
-- src/main.cpp, runMain: from the start of the program, by UDP, to the AUTH that waits for its
-- CONFIRM.
use tcp_udp_chat_server.Fsm.{next}
use tcp_udp_chat_server.Program.Turns.{Turn, heard-eq, round-eq, run_turns, turn-then}
use tcp_udp_chat_server.StdinListener.Delivery.{CanWrite, text_of_lines, write-CanWrite}
use tcp_udp_chat_server.Serializer.{serialize}
use tcp_udp_chat_server.Program.Steps.{
  Reach, Step, here, later, main_handles, main_takes, thread_hears, thread_sends,
}
use tcp_udp_chat_server.Program.State.{
  Program, fsm_of, holding, looping, start_program, with_fsm, with_listener,
}
use tcp_udp_chat_server.Program.Login.Lines.{asking_turns, auth_line, auth_line-handled, auth_with}
use tcp_udp_chat_server.Pipe.{Pipe}
use tcp_udp_chat_server.Net.{make_connection, send_data}
use tcp_udp_chat_server.MailBox.State.{udp}
use tcp_udp_chat_server.MailBox.Queue.{get_outgoing_mail, send_mail, wait_mail}
use tcp_udp_chat_server.Mail.Valid.{IsValid}
use tcp_udp_chat_server.Mail.Types.{AuthMessage, Mail, MessageType, auth_message, data_message_id}
use tcp_udp_chat_server.Listener.State.{chunk, make_listener}
use tcp_udp_chat_server.Listener.Loop.{to_send_ready, handle, stdin_ready}
use tcp_udp_chat_server.Listener.Handlers.{
  await_confirm, listen_to_send_pipe, note_bye, send, send_outgoing,
}
use tcp_udp_chat_server.Fsm.{round, round_in, take_mail, at_auth, at_start, on_start, send_to}
use tcp_udp_chat_server.Common.{
  Result, List, ok, ◌≡◌, [], arith, codes, false, length-append, pos, refl, some, true, ◌++◌, ◌∷◌,
}
use tcp_udp_chat_server.ArgumentParser.Parse.{Args}

module _ (junk : MessageType) (a : Args) (pipe : Pipe) (m : AuthMessage) where
  abbrev pub begun : Program
  begun = start_program junk (record a { type = udp }) pipe

  abbrev pub first_auth : Mail
  first_auth = auth_with junk m 0

  abbrev typed_in : Program
  typed_in =
      with_listener
        (record begun.listener {
          mailbox = record begun.listener.mailbox {
            incoming_mails = first_auth ∷ [];
            display_name = m.display_name;
          };
        })
        begun

  abbrev in_hand : Program
  in_hand =
      with_fsm
        (record {
          state = at_start;
          mailbox = record typed_in.listener.mailbox { incoming_mails = [] };
          mail = first_auth;
          out = [];
        })
        holding typed_in

  abbrev queued : Program
  queued =
      with_fsm
        (record {
          state = at_auth;
          mailbox = record in_hand.listener.mailbox {
            outgoing_mails = first_auth ∷ [];
            sequence_udp_number = 1;
            notify_listener_pipe = some (record pipe { written = pipe.written ++ codes "1" });
          };
          mail = first_auth;
          out = [];
        })
        looping in_hand

  -- The AUTH is sent, and its CONFIRM is awaited.
  abbrev pub auth_sent : Program
  auth_sent =
      record (with_listener
        (record queued.listener {
          mailbox = record queued.listener.mailbox { outgoing_mails = [] };
          connection = record queued.listener.connection { sent = serialize true first_auth ∷ [] };
          received_confirm = false;
          ref_msg_id = pos 0;
          ref_auth_id = pos 0;
          conf_mail = first_auth;
        })
        queued) { reads = 1; taken = first_auth ∷ [] }

  types_in : IsValid (auth_message m) → Step junk begun typed_in
  unfolding start_program
  types_in v =
      thread_hears (stdin_ready (chunk (text_of_lines (auth_line m ∷ [])))) typed_in.listener []
        refl (auth_line-handled junk m begun.listener v) refl

  takes_hand : Step junk typed_in in_hand
  unfolding start_program wait_mail
  takes_hand = main_takes first_auth in_hand.listener.mailbox [] refl refl refl refl

  queues : CanWrite pipe → Step junk in_hand queued
  unfolding start_program on_start send_to send_mail
  queues w =
      main_handles (fsm_of queued) refl refl (rw (write-CanWrite pipe (codes "1") w) refl) refl

  announced :
      handle junk (to_send_ready (chunk (codes "1"))) queued.listener []
      ≡ ok (auth_sent.listener, [])
  unfolding start_program handle listen_to_send_pipe send_outgoing get_outgoing_mail send send_data
      note_bye await_confirm make_listener make_connection data_message_id
  announced = refl

  sends : Step junk queued auth_sent
  unfolding start_program
  sends =
      thread_sends b'1' auth_sent.listener []
        (omega (arith, length-append pipe.written (codes "1"))) refl announced refl

  pub auth_sent-Reach : IsValid (auth_message m) → CanWrite pipe → Reach junk begun auth_sent
  auth_sent-Reach v w = later (later (later (later here (types_in v)) takes_hand) (queues w)) sends

  asking_round : CanWrite pipe → round (fsm_of typed_in) ≡ next (fsm_of queued)
  unfolding start_program round_in take_mail wait_mail on_start send_to send_mail
  asking_round w = rw (write-CanWrite pipe (codes "1") w) refl

  -- And then whatever follows.
  pub asking_turns-auth_sent :
      (rest : List Turn) (r : Result Program)
      → IsValid (auth_message m)
      → CanWrite pipe
      → run_turns junk rest auth_sent ≡ r
      → run_turns junk (asking_turns m ++ rest) begun ≡ r
  unfolding start_program
  asking_turns-auth_sent rest r v w after =
      turn-then junk _ _ begun typed_in r
        (heard-eq junk _ begun typed_in.listener (auth_line-handled junk m begun.listener v))
        (turn-then junk _ _ typed_in queued r
          (round-eq junk typed_in (fsm_of queued) (asking_round w))
          (turn-then junk _ _ queued auth_sent r
            (heard-eq junk _ queued auth_sent.listener announced) after))
