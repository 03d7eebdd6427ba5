-- ===== src/Listener/Ending.antt =====
-- src/listeners.cpp, Listener::runListener: when the loop ends.
use mathlib.Core.Path.{subst}
use tcp_udp_chat_server.MailBox.Wire.{write_mail_buffer}
use tcp_udp_chat_server.Net.{receive_data, send_data, Arrival}
use mathlib.Core.Path.{subst}
use tcp_udp_chat_server.MailBox.State.{MailBox}
use tcp_udp_chat_server.MailBox.Queue.{get_outgoing_mail, add_mail}
use tcp_udp_chat_server.MailBox.Local.{write_mail_type}
use tcp_udp_chat_server.MailBox.Commands.{write_mail_line}
use tcp_udp_chat_server.Mail.Validate.{make_error}
use tcp_udp_chat_server.Mail.Types.{Mail, MessageType, bye, new_mail}
use tcp_udp_chat_server.Mail.Print.{Output}
use tcp_udp_chat_server.Listener.State.{at_eof, broken, chunk, try_again, Listener, PipeRead}
use tcp_udp_chat_server.Listener.Lines.{complete_lines, listen_stdin-enter_lines, enter_lines}
use tcp_udp_chat_server.Listener.Handlers.{
  stdin_room, await_confirm, dispatch_udp, note_bye, note_failure, on_confirm, on_other, on_reply,
  receive_mail, send, send_outgoing, set_srv_msg_id, listen_signal, listen_socket, listen_stdin,
  listen_to_send_pipe, signal_end,
}
use tcp_udp_chat_server.Common.{
  take, failed_to_receive, guard, refl, sym, true, >>=-eq-ok, All, Bool, Bytes, List, [], arith,
  false, ok, ◌++◌, ◌∙◌, ◌∷◌, ◌≡◌, ◌≢◌,
}

-- No BYE has been sent, and none waits to be sent.
pub record NoBye (l : Listener) : Type 0 where
  pub not_sent : l.sent_bye ≡ false
  pub none_waits : All (λ (m : Mail). m.type ≢ bye) l.mailbox.outgoing_mails

-- What a handler that takes nothing from the queue leaves alone.
pub record Leaves (l k : Listener) : Type 0 where
  pub bye_is : k.sent_bye ≡ l.sent_bye
  pub queue_is : k.mailbox.outgoing_mails ≡ l.mailbox.outgoing_mails

write_mail_line-outgoing :
    (line : Bytes) (mail m : Mail) (mb mb' : MailBox) (o : List Output)
    → write_mail_line line mail mb ≡ ok (m, mb', o)
    → mb'.outgoing_mails ≡ mb.outgoing_mails
unfolding write_mail_line
write_mail_line-outgoing line mail m mb mb' o e = ground arith

add_mail-outgoing : (m : Mail) (mb : MailBox) → (add_mail m mb).outgoing_mails ≡ mb.outgoing_mails
unfolding add_mail
add_mail-outgoing m mb = ground arith

enter_lines-outgoing :
    (junk : MessageType) (lines : List Bytes) (mb mb' : MailBox) (out o : List Output)
    → enter_lines junk lines mb out ≡ ok (mb', o)
    → mb'.outgoing_mails ≡ mb.outgoing_mails
unfolding enter_lines
enter_lines-outgoing junk [] mb mb' out o e = ground arith
enter_lines-outgoing junk (line ∷ lines) mb mb' out o e =
    let ((m, mb1, o1), p, q) = >>=-eq-ok (write_mail_line line (new_mail junk) mb) _ e in
    enter_lines-outgoing junk lines (add_mail m mb1) mb' (out ++ o1) o q
    ∙ add_mail-outgoing m mb1
    ∙ write_mail_line-outgoing line (new_mail junk) m mb mb1 o1 p

pub listen_stdin-Leaves :
    (junk : MessageType) (r : PipeRead) (l k : Listener) (b : Bool) (o : List Output)
    → listen_stdin junk r l ≡ ok (b, k, o)
    → Leaves l k
listen_stdin-Leaves junk (chunk bytes) l k b o e =
    let ((mb, o1), p, q) =
      >>=-eq-ok (enter_lines junk (complete_lines (take stdin_room bytes) []) l.mailbox []) _
        (rw listen_stdin-enter_lines at e) in
    let same =
      enter_lines-outgoing junk (complete_lines (take stdin_room bytes) []) l.mailbox mb [] o1 p in
    record { bye_is = ground arith; queue_is = ground arith }
listen_stdin-Leaves junk try_again l k b o e = unfold listen_stdin in ground arith
listen_stdin-Leaves junk broken l k b o e = unfold listen_stdin in ground arith
listen_stdin-Leaves junk at_eof l k b o e = unfold listen_stdin in ground arith

receive_mail-Leaves :
    (junk : MessageType) (mail : Mail) (out o : List Output) (l k : Listener) (b : Bool)
    → receive_mail junk mail out l ≡ ok (b, k, o)
    → Leaves l k
unfolding receive_mail write_mail_type dispatch_udp on_reply on_confirm on_other send send_data
    set_srv_msg_id add_mail
receive_mail-Leaves junk mail out o l k b e = ground arith

note_failure-Leaves :
    (b : Bool) (out : List Output) (l : Listener) → Leaves l (note_failure b out l).1
unfolding note_failure
note_failure-Leaves true out l = record { bye_is = refl; queue_is = refl }
note_failure-Leaves false out l = record { bye_is = refl; queue_is = refl }

pub listen_socket-Leaves :
    (junk : MessageType) (a : Arrival) (l k : Listener) (b : Bool) (o : List Output)
    → listen_socket junk a l ≡ ok (b, k, o)
    → Leaves l k
unfolding listen_socket
listen_socket-Leaves junk a l k b o e =
    let ((got, buffer, c), p, q) = >>=-eq-ok (receive_data a l.connection) _ e in
    let (_, p', q') = >>=-eq-ok (guard got failed_to_receive) _ q in
    let ((written, mail, out), p'', q'') =
      >>=-eq-ok (write_mail_buffer buffer (new_mail junk) l.mailbox) _ q' in
    let noted = note_failure written out (record l { connection = c }) in
    let first = note_failure-Leaves written out (record l { connection = c }) in
    let second = receive_mail-Leaves junk mail noted.0 o noted.1 k b q'' in
    record { bye_is = second.bye_is ∙ first.bye_is; queue_is = second.queue_is ∙ first.queue_is }

pub listen_signal-Leaves :
    (junk : MessageType) (r : PipeRead) (l k : Listener) (b : Bool) (o : List Output)
    → listen_signal junk r l ≡ ok (b, k, o)
    → Leaves l k
unfolding listen_signal signal_end add_mail write_mail_type make_error
listen_signal-Leaves junk r l k b o e = ground arith

pub Leaves-NoBye : (l k : Listener) → NoBye l → Leaves l k → NoBye k
Leaves-NoBye l k n s = record {
  not_sent = s.bye_is ∙ n.not_sent;
  none_waits = subst (All (λ (m : Mail). m.type ≢ bye)) (sym s.queue_is) n.none_waits;
}

-- One mail less waits, and it was no BYE.
send_outgoing-Leaves :
    (l k : Listener) (b : Bool) (o : List Output) (m : Mail) (rest : List Mail)
    → l.mailbox.outgoing_mails ≡ m ∷ rest
    → m.type ≢ bye
    → send_outgoing l ≡ ok (b, k, o)
    → (k.sent_bye ≡ l.sent_bye) × (k.mailbox.outgoing_mails ≡ rest)
unfolding send_outgoing get_outgoing_mail note_bye send send_data await_confirm
send_outgoing-Leaves l k b o m rest q n e = ground arith

send_outgoing-NoBye :
    (l k : Listener) (b : Bool) (o : List Output) (queue : List Mail)
    → l.mailbox.outgoing_mails ≡ queue
    → NoBye l
    → send_outgoing l ≡ ok (b, k, o)
    → NoBye k
send_outgoing-NoBye l k b o [] q n e = unfold send_outgoing get_outgoing_mail in ground arith
send_outgoing-NoBye l k b o (m ∷ rest) q n e =
    let waits = subst (All (λ (m : Mail). m.type ≢ bye)) q n.none_waits in
    let s = send_outgoing-Leaves l k b o m rest q waits.0 e in
    record {
      not_sent = s.0 ∙ n.not_sent;
      none_waits = subst (All (λ (m : Mail). m.type ≢ bye)) (sym s.1) waits.1;
    }

pub listen_to_send_pipe-NoBye :
    (r : PipeRead) (l k : Listener) (b : Bool) (o : List Output)
    → NoBye l
    → listen_to_send_pipe r l ≡ ok (b, k, o)
    → NoBye k
unfolding listen_to_send_pipe
listen_to_send_pipe-NoBye broken l k b o n e = cc
listen_to_send_pipe-NoBye at_eof l k b o n e = let same : k ≡ l = ground arith in rw same n
listen_to_send_pipe-NoBye (chunk c) l k b o n e =
    send_outgoing-NoBye l k b o l.mailbox.outgoing_mails refl n e
listen_to_send_pipe-NoBye try_again l k b o n e =
    send_outgoing-NoBye l k b o l.mailbox.outgoing_mails refl n e
