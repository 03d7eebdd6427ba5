-- ===== src/Listener/Handlers.antt =====
-- src/listeners.cpp, class Listener: what is done when a descriptor is ready. Each handler's
-- Boolean is what it returns. `junk` is the type of a mail that is declared without an initialiser.
use tcp_udp_chat_server.Tests.Data.{confirm_mail}
use tcp_udp_chat_server.Net.{Arrival, receive_data, send_data}
use tcp_udp_chat_server.MailBox.Wire.{write_mail_buffer}
use tcp_udp_chat_server.MailBox.State.{MailBox, tcp, udp}
use tcp_udp_chat_server.MailBox.Queue.{add_mail, get_outgoing_mail}
use tcp_udp_chat_server.MailBox.Local.{write_mail_type}
use tcp_udp_chat_server.MailBox.Commands.{write_mail_line}
use tcp_udp_chat_server.Mail.Types.{
  Mail, MessageType, auth, bye, confirm, confirm_message, err, get_message_id, get_ref_message_id,
  join, new_mail, reply,
}
use tcp_udp_chat_server.Mail.Print.{Output, cerr, endl}
use tcp_udp_chat_server.Listener.State.{Listener, PipeRead, at_eof, broken, chunk, try_again}
use tcp_udp_chat_server.Common.{
  take, ℕ, ◌>>◌, Bool, Bytes, List, Result, [], bad_variant_access, beq, codes, eq_ℤ,
  failed_to_read_pipe, failed_to_receive, false, guard, if◌then◌else◌, leb_ℤ, minus_one, not, ok,
  throw, true, ℤ, ◌&&◌, ◌++◌, ◌==◌, ◌>>=◌, ◌∷◌,
}

-- The loop of `listenStdin` over the bytes read: every line that is not empty becomes a mail.
unfoldable pub stdin_loop :
    MessageType → Bytes → Bytes → MailBox → List Output → Result (MailBox × List Output)
stdin_loop junk [] line mb out = ok (mb, out)
stdin_loop junk (c ∷ cs) line mb out = elim (c == b'\n') [
  | false ↦ stdin_loop junk cs (line ++ c ∷ []) mb out
  | true ↦ elim (beq line []) [
    | true ↦ stdin_loop junk cs line mb out
    | false ↦ write_mail_line line (new_mail junk) mb >>= λ r.
        stdin_loop junk cs [] (add_mail r.0 r.1) (out ++ r.2)
  ]
]

abbrev pub Handled : Type 0
Handled = Bool × Listener × List Output

-- The room for one read of stdin's pipe: `sizeof(buf) - 1`.
abbrev pub stdin_room : ℕ
stdin_room = 1023

-- `listenStdin`.
unfoldable pub listen_stdin : MessageType → PipeRead → Listener → Result Handled
listen_stdin junk broken l = throw failed_to_read_pipe
listen_stdin junk at_eof l = ok (false, l, [])
listen_stdin junk try_again l = ok (true, l, [])
listen_stdin junk (chunk bytes) l = stdin_loop junk (take stdin_room bytes) [] l.mailbox [] >>= λ r.
    ok (true, record l { mailbox = r.0 }, r.1)

-- `connection->sendData(mail)`.
unfoldable pub send : Mail → Listener → Result Listener
send mail l = send_data mail l.connection >>= λ c. ok (record l { connection = c })

unfoldable pub set_srv_msg_id : ℤ → Listener → Listener
set_srv_msg_id id l = record l { mailbox = record l.mailbox { srv_msg_id = id } }

-- `mailbox->addMail(mail); return true;`
abbrev pub accept : Mail → List Output → Listener → Result Handled
accept mail out l = ok (true, record l { mailbox = add_mail mail l.mailbox }, out)

-- `case REPLY:` and what follows the `switch`.
unfoldable pub on_reply : Mail → Mail → List Output → Listener → Result Handled
on_reply mail confirm_mail out l =
    if leb_ℤ (get_message_id mail) l.mailbox.srv_msg_id
    then (send confirm_mail l >>= λ k. ok (true, k, out))
    else if eq_ℤ l.ref_auth_id (get_ref_message_id mail)
    then (send confirm_mail (set_srv_msg_id (get_message_id mail) l) >>= λ k. accept mail out k)
    else ok (true, l, out)

-- `case CONFIRM:`, with the alternative that `std::get` finds.
unfoldable pub on_confirm : Mail → List Output → Listener → Result Handled
on_confirm mail out l = elim mail.payload [
  | confirm_message m ↦
      if eq_ℤ m.ref_message_id l.ref_msg_id && not l.received_confirm
      then ok (true, record l { received_confirm = true; retries = 0; ref_msg_id = minus_one }, out)
      else ok (true, l, out)
  | _ ↦ throw bad_variant_access
]

-- `default:` and what follows the `switch`.
unfoldable pub on_other : Mail → Mail → List Output → Listener → Result Handled
on_other mail confirm_mail out l =
    if leb_ℤ (get_message_id mail) l.mailbox.srv_msg_id
    then ok (true, l, out)
    else (send confirm_mail (set_srv_msg_id (get_message_id mail) l) >>= λ k. accept mail out k)

-- The `switch` on the type of a mail that came by UDP.
unfoldable pub dispatch_udp : MessageType → Mail → Mail → List Output → Listener → Result Handled
dispatch_udp reply mail confirm_mail out l = on_reply mail confirm_mail out l
dispatch_udp confirm mail confirm_mail out l = on_confirm mail out l
dispatch_udp _ mail confirm_mail out l = on_other mail confirm_mail out l

-- The part of `listenSocket` behind the parsing of the mail.
unfoldable pub receive_mail : MessageType → Mail → List Output → Listener → Result Handled
receive_mail junk mail out l = elim l.protocol_type [
  | udp ↦
      write_mail_type confirm (new_mail junk) (get_message_id mail) l.mailbox >>= λ confirm_mail.
      dispatch_udp mail.type mail confirm_mail out l
  | tcp ↦ accept mail out l
]

-- What `listenSocket` does where `writeMail` returns false; it goes on with the mail all the same.
unfoldable pub note_failure : Bool → List Output → Listener → List Output × Listener
note_failure true out l = (out, l)
note_failure false out l = (
  out ++ cerr (codes "Failed to write mail from socket" ++ endl) ∷ [],
  record l { keep_running = false },
)

-- `listenSocket`.
unfoldable pub listen_socket : MessageType → Arrival → Listener → Result Handled
listen_socket junk a l = do
  (got, buffer, c) ← receive_data a l.connection
  guard got failed_to_receive
  (written, mail, out) ← write_mail_buffer buffer (new_mail junk) l.mailbox
  let noted = note_failure written out (record l { connection = c })
  receive_mail junk mail noted.0 noted.1

-- What `listenToSendPipe` keeps of a mail that was sent by UDP.
unfoldable pub await_confirm : Mail → Listener → Listener
await_confirm mail l =
    let k = record l {
      received_confirm = false;
      ref_msg_id = get_message_id mail;
      conf_mail = mail;
    } in
    elim mail.type [
      | auth ↦ record k { ref_auth_id = get_message_id mail }
      | join ↦ record k { ref_auth_id = get_message_id mail }
      | _ ↦ k
    ]

unfoldable pub note_bye : MessageType → Listener → Listener
note_bye bye l = record l { sent_bye = true; keep_running = false }
note_bye _ l = l

-- `listenToSendPipe` behind the `read`.
unfoldable pub send_outgoing : Listener → Result Handled
send_outgoing l = do
  (mail, mb) ← get_outgoing_mail l.mailbox
  k ← send mail (note_bye mail.type (record l { mailbox = mb }))
  elim k.protocol_type [ udp ↦ ok (true, await_confirm mail k, []) | tcp ↦ ok (true, k, []) ]

-- `listenToSendPipe`.
unfoldable pub listen_to_send_pipe : PipeRead → Listener → Result Handled
listen_to_send_pipe broken l = throw failed_to_read_pipe
listen_to_send_pipe at_eof l = ok (false, l, [])
listen_to_send_pipe _ l = send_outgoing l

-- `listenSignal` behind the `read`: an ERR that is marked as the user's own end.
unfoldable pub signal_end : MessageType → Listener → Result Handled
signal_end junk l = write_mail_type err (new_mail junk) minus_one l.mailbox >>= λ mail. ok (
  true,
  record l { mailbox = add_mail (record mail { sigint = true }) l.mailbox; keep_running = false },
  [],
)

-- `listenSignal`.
unfoldable pub listen_signal : MessageType → PipeRead → Listener → Result Handled
listen_signal junk broken l = throw failed_to_read_pipe
listen_signal junk at_eof l = ok (false, l, [])
listen_signal junk _ l = signal_end junk l
