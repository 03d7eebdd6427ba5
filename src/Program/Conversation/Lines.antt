-- ===== src/Program/Conversation/Lines.antt =====
-- src/listeners.cpp, Listener::listenStdin: a message of the user, from the keyboard to the
-- mailbox.
use tcp_udp_chat_server.Streams.{read_token}
use tcp_udp_chat_server.StdinListener.Delivery.{
  lines_read, text_length, nonempty, not_newline, text_of_lines,
}
use tcp_udp_chat_server.MailBox.Typing.{is_command}
use tcp_udp_chat_server.MailBox.Tcp.Lines.{all_mono}
use tcp_udp_chat_server.MailBox.State.{MailBox}
use tcp_udp_chat_server.MailBox.Queue.{add_mail}
use tcp_udp_chat_server.MailBox.Commands.{write_mail_line}
use tcp_udp_chat_server.Mail.Validate.{is_graphic, is_printable, passes}
use tcp_udp_chat_server.Mail.Valid.{IsValid, make_text_ok, passes_iff}
use tcp_udp_chat_server.Mail.Types.{Mail, MessageType, msg, new_mail, text_message}
use tcp_udp_chat_server.Listener.State.{Listener, chunk}
use tcp_udp_chat_server.Listener.Loop.{handle, stdin_ready}
use tcp_udp_chat_server.Listener.Lines.{enter_lines, listen_stdin-enter_lines}
use tcp_udp_chat_server.Common.{
  length, ◌≤◌, ℕ, Bytes, [], all, arith, beq, false, ok, pos, refl, true, ◌++◌, ◌∷◌, ◌≡◌,
}

-- A line whose first word is no command and whose content is valid, under a valid name, and which
-- one read of stdin's pipe takes with its end.
pub record IsText (line name : Bytes) : Type 0 where
  pub no_command : is_command (read_token line).0 ≡ false
  pub valid_name : passes is_graphic 20 name ≡ true
  pub valid_content : passes is_printable 1400 line ≡ true
  pub fits_read : length line ≤ 1022

-- The MSG that is made of it, with a name and a number.
abbrev pub said_as : MessageType → Bytes → Bytes → ℕ → Mail
said_as junk line name n = record (new_mail junk) {
  type = msg;
  payload =
      text_message (record {
        to_send = true;
        message_id = pos n;
        display_name = name;
        message_content = line;
      });
}

abbrev pub said : MessageType → Bytes → MailBox → Mail
said junk line mb = said_as junk line mb.display_name mb.sequence_udp_number

write_mail_line-said :
    (junk : MessageType) (line : Bytes) (mb : MailBox)
    → IsText line mb.display_name
    → write_mail_line line (new_mail junk) mb ≡ ok (said junk line mb, mb, [])
unfolding write_mail_line is_command IsValid
write_mail_line-said junk line mb t =
    let c = t.no_command in
    let made =
      make_text_ok (pos mb.sequence_udp_number) mb.display_name line
        (t.valid_name, t.valid_content) in
    ground arith

abbrev pub typed_to : MessageType → Bytes → MailBox → MailBox
typed_to junk line mb = record mb { incoming_mails = mb.incoming_mails ++ said junk line mb ∷ [] }

nonempty-text :
    (line : Bytes) → passes is_printable 1400 line ≡ true → nonempty (line ∷ []) ≡ line ∷ []
unfolding nonempty passes beq
nonempty-text [] h = cc
nonempty-text (c ∷ cs) h = refl

printable_no_newline : (s : Bytes) → all is_printable s ≡ true → all not_newline s ≡ true
unfolding is_printable
printable_no_newline s h = all_mono is_printable not_newline s (λ c w. ground arith) h

pub text-typed :
    (junk : MessageType) (line : Bytes) (l : Listener)
    → IsText line l.mailbox.display_name
    → handle junk (stdin_ready (chunk (text_of_lines (line ∷ [])))) l []
      ≡ ok (record l { mailbox = typed_to junk line l.mailbox }, [])
unfolding handle enter_lines add_mail
text-typed junk line l t =
    let one = printable_no_newline line ((passes_iff is_printable 1400 line).0 t.valid_content).2 in
    let lines = lines_read (line ∷ []) (one, tt) (text_length line (omega (arith, t.fits_read))) in
    rw
      (
        listen_stdin-enter_lines junk (text_of_lines (line ∷ [])) l,
        lines,
        nonempty-text line t.valid_content,
        write_mail_line-said junk line l.mailbox t,
      )
      refl
