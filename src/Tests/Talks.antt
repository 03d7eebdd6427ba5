-- ===== src/Tests/Talks.antt =====
-- Tests of whole conversations.
use tcp_udp_chat_server.Listener.Thread.{listener_thread, process_exits}
use tcp_udp_chat_server.Program.Conversation.Unheard.{unheard_confirm}
use tcp_udp_chat_server.Program.Conversation.Exchanges.{hears, says}
use tcp_udp_chat_server.MailBox.Udp.Word.{as_read}
use tcp_udp_chat_server.Common.{false, replicate, to_uint16}
use tcp_udp_chat_server.Program.Session.{session}
use tcp_udp_chat_server.Program.Conversation.Talks.{Talks}
use tcp_udp_chat_server.Program.Conversation.Says.{saying}
use tcp_udp_chat_server.Program.Conversation.Lines.{said_as, IsText}
use tcp_udp_chat_server.Program.Conversation.Hears.{CanHear}
use tcp_udp_chat_server.Program.Conversation.Exchanges.{
  CanTalk, Exchange, conversation, datagrams, exchange_turns, screen,
}
use tcp_udp_chat_server.Streams.{is_space, read_token, skip_space, take_token}
use tcp_udp_chat_server.MailBox.Typing.{is_command}
use tcp_udp_chat_server.Mail.Valid.{IsValid}
use tcp_udp_chat_server.Program.Login.Answers.{answering_turns, own_confirm}
use tcp_udp_chat_server.Tests.Typing.{typed_auth, typed_auth-IsValid}
use tcp_udp_chat_server.Program.Turns.{run_turns}
use tcp_udp_chat_server.Program.Login.Lines.{asking_turns, auth_with}
use tcp_udp_chat_server.Mail.Print.{cerr, endl}
use tcp_udp_chat_server.Mail.Validate.{is_printable, is_graphic, passes}
use tcp_udp_chat_server.Mail.Types.{TextMessage}
use tcp_udp_chat_server.ArgumentParser.Parse.{make_args}
use tcp_udp_chat_server.Common.{minus_one, beq, pos, ◌++◌, all}
use tcp_udp_chat_server.MailBox.Udp.{uint16_of}
use tcp_udp_chat_server.Tests.Data.{ready_pipe}
use tcp_udp_chat_server.Tests.Composed.{started, args_of}
use tcp_udp_chat_server.Serializer.{serialize, serialize_data, serialize_string, serialize_uint16}
use tcp_udp_chat_server.Program.State.{Program, start_program}
use tcp_udp_chat_server.MailBox.State.{tcp, udp}
use tcp_udp_chat_server.Mail.Types.{msg}
use tcp_udp_chat_server.Listener.State.{Listener}
use tcp_udp_chat_server.Listener.Loop.{timed_out}
use tcp_udp_chat_server.Listener.Hang.{run_listener}
use tcp_udp_chat_server.Fsm.{at_open}
use tcp_udp_chat_server.Common.{List, [], arith, codes, ok, refl, true, ◌∷◌, ◌≡◌}

abbrev hello : TextMessage
hello = record {
  to_send = true;
  message_id = pos 8;
  display_name = codes "Eve";
  message_content = codes "hi all";
}

-- The user says something, and is answered.
abbrev exchanged : List Exchange
exchanged = says (codes "anyone?") 50000 ∷ hears hello 50000 ∷ []

anyone-IsText :
    IsText (codes "anyone?") (codes "default") × IsText (codes "anyone?") typed_auth.display_name
unfolding is_command read_token skip_space take_token is_space beq passes all is_graphic
    is_printable
anyone-IsText = (
  record { no_command = refl; valid_name = refl; valid_content = refl; fits_read = omega arith },
  record { no_command = refl; valid_name = refl; valid_content = refl; fits_read = omega arith },
)

hello-CanHear : CanHear hello (pos 7) × CanHear hello minus_one
unfolding IsValid passes all is_graphic is_printable serialize serialize_data serialize_uint16
    serialize_string as_read to_uint16
hello-CanHear = (
  record { is_valid = (refl, refl); fits = omega arith; is_new = refl },
  record { is_valid = (refl, refl); fits = omega arith; is_new = refl },
)

abbrev in_conversation : Program
in_conversation = record (started udp) { state = at_open }

in_conversation-Talks : Talks in_conversation
unfolding start_program make_args
in_conversation-Talks = record {
  by_udp = record { protocol_is = refl; service_is = refl; connection_is = refl };
  is_open = refl;
  none_in = refl;
  none_out = refl;
  none_awaited = refl;
  sends = refl;
  pipe = ready_pipe;
  notifies = refl;
  can_write = record { has_fd = refl; no_failure = refl };
}

exchanged-CanTalk :
    CanTalk (codes "default") 0 minus_one exchanged
    × CanTalk typed_auth.display_name 1 (pos (uint16_of 0 7)) exchanged
unfolding CanTalk as_read to_uint16 uint16_of
exchanged-CanTalk =
    ((anyone-IsText.0, refl, (hello-CanHear.1, tt)), (anyone-IsText.1, refl, (hello-CanHear.0, tt)))

conversation_example :
    (q : Program) × (run_turns msg (exchange_turns 0 exchanged) in_conversation ≡ ok q)
    × Talks q
    × (q.out ≡ screen exchanged)
    × (q.listener.connection.sent ≡ datagrams msg (codes "default") 0 exchanged)
unfolding start_program make_args
conversation_example =
    conversation msg exchanged in_conversation in_conversation-Talks exchanged-CanTalk.0

-- A user with a name comes into the conversation, says something, and is answered.
session_example :
    (q : Program) × (run_turns msg
        ((asking_turns typed_auth ++ answering_turns 4567 50000 0 7 (codes "hi"))
          ++ exchange_turns 1 exchanged)
        (start_program msg (record (args_of tcp) { type = udp }) ready_pipe)
      ≡ ok q)
    × Talks q
    × (q.listener.connection.sent
        ≡ serialize true (auth_with msg typed_auth 0)
          ∷ serialize true (own_confirm msg (uint16_of 0 7))
          ∷ datagrams msg typed_auth.display_name 1 exchanged)
    × (q.out ≡ cerr (codes "Success: " ++ codes "hi" ++ endl) ∷ screen exchanged)
unfolding passes all is_printable
session_example =
    session msg (args_of tcp) ready_pipe typed_auth 4567 50000 0 7 (codes "hi") exchanged
      typed_auth-IsValid (record { has_fd = refl; no_failure = refl }) refl (omega arith)
      exchanged-CanTalk.1

-- After 128 messages: the next one has the number 128.
abbrev talked_long : Program
talked_long = record in_conversation {
  listener = record in_conversation.listener {
    mailbox = record in_conversation.listener.mailbox { sequence_udp_number = 128 };
  };
}

talked_long-Talks : Talks talked_long
unfolding start_program make_args
talked_long-Talks = record {
  by_udp = record { protocol_is = refl; service_is = refl; connection_is = refl };
  is_open = refl;
  none_in = refl;
  none_out = refl;
  none_awaited = refl;
  sends = refl;
  pipe = ready_pipe;
  notifies = refl;
  can_write = record { has_fd = refl; no_failure = refl };
}

unheard_confirm_example :
    (q : Program) × (run_turns msg (saying (codes "anyone?") 4567 128) talked_long ≡ ok q)
    × (q.listener.received_confirm ≡ false)
    × (listener_thread (λ e. []) msg (replicate 4 timed_out) q.listener
        ≡ process_exits (pos 1) (cerr (codes "ERR: " ++ [] ++ endl) ∷ []))
    × ((k : Listener) × (run_listener msg (replicate 3 timed_out) q.listener ≡ ok k)
        × (k.connection.sent
            ≡ q.listener.connection.sent
              ++ replicate 3
                  (serialize true (said_as msg (codes "anyone?") (codes "default") 128))))
unfolding start_program make_args
unheard_confirm_example =
    unheard_confirm (λ e. []) msg (codes "anyone?") 4567 3 3 talked_long talked_long-Talks
      anyone-IsText.0 (omega arith) (omega arith) refl refl
