-- ===== src/Tests/Composed.antt =====
-- Runs of the whole program: an AUTH that is granted by TCP, and the server's BYE.
use tcp_udp_chat_server.Program.Datagrams.{Within, program_datagrams}
use tcp_udp_chat_server.Fsm.{on_open}
use tcp_udp_chat_server.Program.Ends.{program_tcp-goes_on, stop_never_returns}
use tcp_udp_chat_server.Fsm.{at_end, on_auth}
use tcp_udp_chat_server.Mail.Print.{cerr}
use tcp_udp_chat_server.MailBox.Wire.{write_mail_buffer}
use tcp_udp_chat_server.MailBox.Tcp.{read_content, read_line, read_reply, write_tcp_mail}
use tcp_udp_chat_server.Listener.Handlers.{
  await_confirm, listen_socket, note_failure, receive_mail, listen_to_send_pipe, note_bye, send,
  send_outgoing,
}
use tcp_udp_chat_server.Net.{make_connection, copy_into_array, receive_data, receive_tcp, send_data}
use tcp_udp_chat_server.Serializer.{
  end_line, serialize_data, serialize_string, serialize_uint16, type_word,
}
use tcp_udp_chat_server.Fsm.{at_open, on_start, send_to}
use tcp_udp_chat_server.MailBox.Queue.{announce_as, send_mail}
use tcp_udp_chat_server.Pipe.{write}
use tcp_udp_chat_server.MailBox.Queue.{wait_mail}
use tcp_udp_chat_server.Listener.Handlers.{listen_stdin, stdin_loop}
use tcp_udp_chat_server.Common.{pos, all, beq}
use tcp_udp_chat_server.MailBox.Commands.{write_mail_line}
use tcp_udp_chat_server.Streams.{
  c_string, get_line, strip_blank, strip_return, is_space, read_token, skip_space, take_token,
}
use tcp_udp_chat_server.Mail.Validate.{
  is_printable, make_reply, is_graphic, is_word, make_auth, passes,
}
use tcp_udp_chat_server.MailBox.Queue.{add_mail}
use tcp_udp_chat_server.Tests.Data.{auth_mail, mail_of, ready_pipe}
use tcp_udp_chat_server.Serializer.{serialize}
use tcp_udp_chat_server.Program.Wire.{program_wire}
use tcp_udp_chat_server.Program.Steps.{
  main_stops, Reach, Step, here, later, main_handles, main_takes, thread_hears, thread_sends,
}
use tcp_udp_chat_server.Program.State.{
  Program, fsm_of, holding, looping, start_program, with_listener, written_to,
}
use tcp_udp_chat_server.Program.Queue.{outgoing_never_empty, program-Story}
use tcp_udp_chat_server.Program.Numbers.{Numbered, program-Numbered}
use tcp_udp_chat_server.Net.{packet}
use tcp_udp_chat_server.MailBox.State.{MailBox, ProtocolType, tcp, udp}
use tcp_udp_chat_server.MailBox.Queue.{get_outgoing_mail}
use tcp_udp_chat_server.Mail.Types.{
  data_message_id, new_mail, bye, Mail, auth, msg, reply, reply_message,
}
use tcp_udp_chat_server.Listener.State.{make_listener, chunk}
use tcp_udp_chat_server.Listener.Loop.{goes_on, request_stop, handle, socket_ready, stdin_ready}
use tcp_udp_chat_server.Fsm.History.{Story}
use tcp_udp_chat_server.Fsm.{at_auth}
use tcp_udp_chat_server.Common.{
  [], arith, codes, false, length, map, minus_one, out_of_bounds, refl, some, throw, true, ◌+◌, ◌<◌,
  ◌↔◌, ◌∷◌, ◌≡◌, ◌≢◌,
}
use tcp_udp_chat_server.ArgumentParser.Parse.{Args, make_args}

abbrev pub args_of : ProtocolType → Args
args_of t = record (make_args t) { type_set = true; ip_set = true; ip = codes "localhost" }

abbrev pub started : ProtocolType → Program
started t = start_program msg (args_of t) ready_pipe

abbrev with_mailbox : MailBox → Program → Program
with_mailbox mb p = with_listener (record p.listener { mailbox = mb }) p

-- The user types the AUTH.
abbrev typed : ProtocolType → Program
typed t =
    with_mailbox
      (record (started t).listener.mailbox {
        incoming_mails = auth_mail ∷ [];
        display_name = codes "Bob";
      })
      (started t)

typing : (t : ProtocolType) → Step msg (started t) (typed t)
unfolding handle start_program listen_stdin stdin_loop beq write_mail_line read_token take_token
    skip_space is_space make_auth passes all is_word is_graphic add_mail
typing t =
    thread_hears (stdin_ready (chunk (codes "/auth xuser00 top-secret Bob\n"))) (typed t).listener
      [] refl refl refl

-- The state machine takes it, and sends it.
abbrev held : ProtocolType → Program
held t =
    record (with_mailbox (record (typed t).listener.mailbox { incoming_mails = [] }) (typed t)) {
      mail = auth_mail;
      doing = holding;
    }

taking_auth : (t : ProtocolType) → Step msg (typed t) (held t)
unfolding start_program wait_mail
taking_auth t = main_takes auth_mail (held t).listener.mailbox [] refl refl refl refl

abbrev pub asked : ProtocolType → Program
asked t =
    record (with_mailbox
      (record (held t).listener.mailbox {
        outgoing_mails = auth_mail ∷ [];
        sequence_udp_number = 1;
        notify_listener_pipe = some (record ready_pipe { written = codes "1" });
      })
      (held t)) { state = at_auth; doing = looping }

asking_auth : (t : ProtocolType) → Step msg (held t) (asked t)
unfolding start_program on_start send_to send_mail write
asking_auth t = main_handles (fsm_of (asked t)) refl refl refl refl

pub asked_Reach : (t : ProtocolType) → Reach msg (started t) (asked t)
asked_Reach t = later (later (later here (typing t)) (taking_auth t)) (asking_auth t)

outgoing_never_empty_example :
    (written_to (asked udp).listener.mailbox.notify_listener_pipe
      ≡ (asked udp).reads + length (asked udp).listener.mailbox.outgoing_mails)
    × ((asked udp).reads < written_to (asked udp).listener.mailbox.notify_listener_pipe
        ↔ (get_outgoing_mail (asked udp).listener.mailbox ≢ throw out_of_bounds))
outgoing_never_empty_example =
    outgoing_never_empty msg (args_of udp) ready_pipe (asked udp) refl refl (asked_Reach udp)

program-Story_example : Story at_auth (auth ∷ [])
unfolding start_program
program-Story_example =
    program-Story msg (args_of udp) ready_pipe (asked udp) refl refl (asked_Reach udp)

program-Numbered_example : Numbered 0 (auth_mail ∷ [])
unfolding make_args start_program
program-Numbered_example =
    program-Numbered msg (args_of udp) ready_pipe (asked udp) refl refl refl (asked_Reach udp)

-- The line goes out by TCP.
abbrev sent : Program
sent =
    record (with_listener
      (record (asked tcp).listener {
        mailbox = record (asked tcp).listener.mailbox { outgoing_mails = [] };
        connection = record (asked tcp).listener.connection {
          sent = codes "AUTH xuser00 AS Bob USING top-secret\r\n" ∷ [];
        };
      })
      (asked tcp)) { reads = 1; taken = auth_mail ∷ [] }

sending : Step msg (asked tcp) sent
unfolding handle start_program listen_to_send_pipe send_outgoing get_outgoing_mail send send_data
    note_bye make_args serialize end_line type_word serialize_data serialize_uint16 serialize_string
sending = thread_sends b'1' sent.listener [] (omega arith) refl refl refl

abbrev sent_Reach : Reach msg (started tcp) sent
sent_Reach = later (asked_Reach tcp) sending

program_wire_example :
    codes "AUTH xuser00 AS Bob USING top-secret\r\n" ∷ [] ≡ map (serialize false) (auth_mail ∷ [])
unfolding make_args
program_wire_example = program_wire msg (args_of tcp) ready_pipe sent refl refl refl sent_Reach

-- The server agrees.
abbrev agreed : Mail
agreed = mail_of reply (
    reply_message (record {
      message_id = pos 1;
      result = true;
      ref_message_id = minus_one;
      message_content = codes "hi";
    }))

abbrev answered : Program
answered = with_mailbox (record sent.listener.mailbox { incoming_mails = agreed ∷ [] }) sent

answering : Step msg sent answered
unfolding make_args handle start_program listen_socket receive_data receive_tcp copy_into_array
    write_mail_buffer write_tcp_mail c_string read_line read_reply read_token skip_space take_token
    is_space make_reply passes all is_printable beq read_content get_line strip_blank strip_return
    note_failure receive_mail add_mail
answering =
    thread_hears (socket_ready (packet (codes "REPLY OK IS hi\r\n") 4567 true)) answered.listener []
      refl refl refl

abbrev agreed_held : Program
agreed_held =
    record (with_mailbox (record answered.listener.mailbox { incoming_mails = [] }) answered) {
      mail = agreed;
      doing = holding;
      out = cerr (codes "Success: hi\n") ∷ [];
    }

taking_reply : Step msg answered agreed_held
unfolding make_args start_program announce_as wait_mail
taking_reply =
    main_takes agreed agreed_held.listener.mailbox (cerr (codes "Success: hi\n") ∷ []) refl refl
      refl refl

abbrev opened : Program
opened = record agreed_held { state = at_open; doing = looping }

opening : Step msg agreed_held opened
unfolding make_args start_program on_auth
opening = main_handles (fsm_of opened) refl refl refl refl

-- The server says BYE, and the client gives none back.
abbrev server_bye : Mail
server_bye = record (new_mail msg) { type = bye }

abbrev dismissed : Program
dismissed =
    with_mailbox (record opened.listener.mailbox { incoming_mails = server_bye ∷ [] }) opened

dismissing : Step msg opened dismissed
unfolding make_args handle start_program listen_socket receive_data receive_tcp copy_into_array
    write_mail_buffer write_tcp_mail c_string read_line read_token skip_space take_token is_space
    beq get_line strip_blank strip_return note_failure receive_mail add_mail
dismissing =
    thread_hears (socket_ready (packet (codes "BYE\r\n") 4567 true)) dismissed.listener [] refl refl
      refl

abbrev bye_held : Program
bye_held =
    record (with_mailbox (record dismissed.listener.mailbox { incoming_mails = [] }) dismissed) {
      mail = server_bye;
      doing = holding;
    }

taking_bye : Step msg dismissed bye_held
unfolding make_args start_program announce_as wait_mail
taking_bye = main_takes server_bye bye_held.listener.mailbox [] refl refl refl refl

abbrev ended : Program
ended = record bye_held { state = at_end; doing = looping }

ending : Step msg bye_held ended
unfolding make_args start_program on_open
ending = main_handles (fsm_of ended) refl refl refl refl

abbrev ended_Reach : Reach msg (started tcp) ended
ended_Reach =
    later
      (later (later (later (later (later sent_Reach answering) taking_reply) opening) dismissing)
        taking_bye)
      ending

abbrev stopped : Program
stopped = with_listener (record ended.listener { keep_running = false }) ended

stopping : Step msg ended stopped
unfolding make_args start_program request_stop
stopping = main_stops refl refl refl

stop_never_returns_example : goes_on stopped.listener ≡ true
stop_never_returns_example =
    stop_never_returns msg (args_of tcp) ready_pipe ended stopped refl refl ended_Reach refl refl
      (later here stopping)

program_tcp-goes_on_example : goes_on stopped.listener ≡ true
unfolding make_args
program_tcp-goes_on_example =
    program_tcp-goes_on msg (args_of tcp) ready_pipe stopped refl refl refl
      (later ended_Reach stopping) refl

-- The same AUTH by UDP: its CONFIRM is awaited.
abbrev pub datagram_sent : Program
datagram_sent =
    record (with_listener
      (record (asked udp).listener {
        mailbox = record (asked udp).listener.mailbox { outgoing_mails = [] };
        connection = record (asked udp).listener.connection {
          sent = serialize true auth_mail ∷ [];
        };
        received_confirm = false;
        ref_msg_id = pos 0;
        ref_auth_id = pos 0;
        conf_mail = auth_mail;
      })
      (asked udp)) { reads = 1; taken = auth_mail ∷ [] }

sending_datagram : Step msg (asked udp) datagram_sent
unfolding handle start_program make_args listen_to_send_pipe send_outgoing get_outgoing_mail
    note_bye send send_data await_confirm data_message_id make_listener make_connection
sending_datagram = thread_sends b'1' datagram_sent.listener [] (omega arith) refl refl refl

program_datagrams_example :
    Within (map (serialize true) (auth_mail ∷ [])) (serialize true auth_mail ∷ [])
    × Numbered 0 (auth_mail ∷ [])
unfolding make_args
program_datagrams_example =
    program_datagrams msg (args_of udp) ready_pipe datagram_sent refl refl refl
      (later (asked_Reach udp) sending_datagram)
