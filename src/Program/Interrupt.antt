-- ===== src/Program/Interrupt.antt =====
-- src/listeners.cpp, Listener::handleSignal and StdinListener::runListener: from the signal, or the
-- end of the input, to the BYE that the state machine sends.
use tcp_udp_chat_server.Program.State.{given_to_send, with_listener, Program, looping}
use tcp_udp_chat_server.StdinListener.Rounds.{end_of_input, run_stdin, write_signal}
use tcp_udp_chat_server.StdinListener.Delivery.{write-CanWrite, CanWrite}
use tcp_udp_chat_server.Program.Steps.{
  Reach, here, later, main_handles, main_takes, handler_in, waits_in,
}
use tcp_udp_chat_server.Pipe.{Pipe}
use tcp_udp_chat_server.MailBox.State.{MailBox}
use tcp_udp_chat_server.MailBox.Queue.{
  wait_mail, add_mail, is_numbered, next_number, notify, number_data, send_mail,
}
use tcp_udp_chat_server.MailBox.Local.{write_mail_type}
use tcp_udp_chat_server.Mail.Validate.{is_graphic, is_printable, make_error, passes}
use tcp_udp_chat_server.Mail.Types.{
  Mail, MessageType, bye, bye_message, err, error_message, new_mail,
}
use tcp_udp_chat_server.Mail.Print.{Output}
use tcp_udp_chat_server.Listener.State.{Listener, chunk}
use tcp_udp_chat_server.Listener.Loop.{handle, signal_ready}
use tcp_udp_chat_server.Listener.Handlers.{listen_signal, signal_end}
use tcp_udp_chat_server.Fsm.{
  Fsm, State, at_auth, at_end, at_error, at_open, at_start, on_auth, on_open, on_start, reply_with,
  send_to,
}
use tcp_udp_chat_server.Common.{
  Bytes, display_name_field, invalid, throw, append_assoc, sym, ◌∙◌, List, Result, [], all, codes,
  false, minus_one, ok, pos, refl, some, true, u16_mod, ℕ, ◌%◌, ◌++◌, ◌+◌, ◌∷◌, ◌≡◌,
}

-- `handleSignal`: it writes as the reader of the keyboard does at the end of the input.
unfoldable pub handle_signal : Pipe → Result Pipe
handle_signal signal = write_signal signal

-- The ERR that `listenSignal` puts into the mailbox.
abbrev own_end : MessageType → MailBox → Mail
own_end junk mb = record (new_mail junk) {
  type = err;
  payload = error_message (record {
    message_id = pos mb.sequence_udp_number;
    display_name = mb.display_name;
    message_content = codes "MessageContent";
  });
  sigint = true;
}

-- The BYE that is sent for it.
abbrev own_bye : MessageType → MailBox → Mail
own_bye junk mb = record (own_end junk mb) {
  type = bye;
  payload = bye_message (record { message_id = pos mb.sequence_udp_number });
}

written-own_end :
    (junk : MessageType) (mb : MailBox)
    → passes is_graphic 20 mb.display_name ≡ true
    → write_mail_type err (new_mail junk) minus_one mb
      ≡ ok (record (own_end junk mb) { sigint = false })
unfolding write_mail_type make_error passes all is_printable
written-own_end junk mb d = rw d refl

abbrev signalled : MessageType → Listener → Listener
signalled junk l = record l {
  mailbox = record l.mailbox {
    incoming_mails = l.mailbox.incoming_mails ++ own_end junk l.mailbox ∷ [];
  };
  keep_running = false;
}

handle-signalled :
    (junk : MessageType) (byte : ℕ) (l : Listener)
    → passes is_graphic 20 l.mailbox.display_name ≡ true
    → handle junk (signal_ready (chunk (byte ∷ []))) l [] ≡ ok (signalled junk l, [])
unfolding handle listen_signal signal_end add_mail
handle-signalled junk byte l d = rw (written-own_end junk l.mailbox d) refl

-- The mailbox once the BYE is sent.
abbrev said_bye : MessageType → MailBox → Pipe → MailBox
said_bye junk mb pipe = record mb {
  outgoing_mails = mb.outgoing_mails ++ own_bye junk mb ∷ [];
  sequence_udp_number = (mb.sequence_udp_number + 1) % u16_mod;
  notify_listener_pipe = some (record pipe { written = pipe.written ++ codes "1" });
}

reply-own_bye :
    (junk : MessageType) (s : State) (mb : MailBox) (pipe : Pipe) (out : List Output)
    → CanWrite pipe
    → mb.notify_listener_pipe ≡ some pipe
    → reply_with bye at_end (record { state = s; mailbox = mb; mail = own_end junk mb; out = out })
      ≡ ok (record {
        state = at_end;
        mailbox = said_bye junk mb pipe;
        mail = own_bye junk mb;
        out = out;
      })
unfolding reply_with write_mail_type send_to send_mail number_data next_number is_numbered notify
reply-own_bye junk s mb pipe out w n = rw (n, write-CanWrite pipe (codes "1") w) refl

handler-own_end :
    (junk : MessageType) (s : State) (f : Fsm)
    → waits_in s ≡ true
    → f.mail.sigint ≡ true
    → handler_in s err f ≡ reply_with bye at_end f
unfolding on_start on_auth on_open
handler-own_end junk at_start f w i = rw i refl
handler-own_end junk at_auth f w i = refl
handler-own_end junk at_open f w i = refl
handler-own_end junk at_error f w i = cc
handler-own_end junk at_end f w i = cc

-- The program after the BYE.
abbrev after_end : MessageType → Program → Pipe → Program
after_end junk p pipe =
    let mb = record p.listener.mailbox { incoming_mails = [] } in
    record p {
      state = at_end;
      mail = own_bye junk mb;
      doing = looping;
      out = p.out ++ [];
      listener = record p.listener { mailbox = said_bye junk mb pipe; keep_running = false };
    }

taken_end :
    (junk : MessageType) (mb : MailBox)
    → mb.incoming_mails ≡ []
    → wait_mail (record mb { incoming_mails = mb.incoming_mails ++ own_end junk mb ∷ [] })
      ≡ some (ok (own_end junk mb, record mb { incoming_mails = [] }, []))
unfolding wait_mail
taken_end junk mb i = rw i refl

end-Reach :
    (junk : MessageType) (p : Program) (pipe : Pipe)
    → p.doing ≡ looping
    → waits_in p.state ≡ true
    → p.listener.mailbox.incoming_mails ≡ []
    → p.listener.mailbox.notify_listener_pipe ≡ some pipe
    → CanWrite pipe
    → Reach junk (with_listener (signalled junk p.listener) p) (after_end junk p pipe)
end-Reach junk p pipe d w i n c =
    let mb = p.listener.mailbox in
    let takes = taken_end junk mb i in
    let says =
      handler-own_end junk p.state _ w refl
      ∙ reply-own_bye junk p.state (record mb { incoming_mails = [] }) pipe (p.out ++ []) c n in
    later (later here (main_takes _ _ [] d w takes refl)) (main_handles _ refl w says refl)

-- Where the program is about to begin a round in which it waits for mail, and no mail waits: SIGINT
-- and the end of the input both write the byte 1 into the pipe of the signals, if it can be written
-- into; and once the listener reads that byte, if the display name is one that
-- `validateDisplayName` accepts and the pipe of the mails to send can be written into, the program
-- can reach the end of the state machine, with one mail more given to `sendMail`, a BYE.
pub ends_with_bye :
    (junk : MessageType) (p : Program) (lines signal pipe : Pipe)
    → CanWrite signal
    → p.doing ≡ looping
    → waits_in p.state ≡ true
    → p.listener.mailbox.incoming_mails ≡ []
    → passes is_graphic 20 p.listener.mailbox.display_name ≡ true
    → p.listener.mailbox.notify_listener_pipe ≡ some pipe
    → CanWrite pipe
    → (handle_signal signal ≡ ok (record signal { written = signal.written ++ codes "1" }))
      × (run_stdin (end_of_input ∷ []) lines signal
          ≡ ok (lines, record signal { written = signal.written ++ codes "1" }))
      × ((q : Program) × (k : Listener) × (handle junk
              (signal_ready (chunk (codes "1")))
              p.listener
              []
            ≡ ok (k, []))
          × Reach junk (with_listener k p) q
          × (q.state ≡ at_end)
          × ((m : Mail) × (m.type ≡ bye) × (given_to_send q ≡ given_to_send p ++ m ∷ [])))
unfolding handle_signal write_signal run_stdin
ends_with_bye junk p lines signal pipe s d w i name n c =
    let mb = p.listener.mailbox in
    (
      rw (s.has_fd, s.no_failure) refl,
      rw (s.has_fd, s.no_failure) refl,
      (
        after_end junk p pipe,
        signalled junk p.listener,
        handle-signalled junk b'1' p.listener name,
        end-Reach junk p pipe d w i n c,
        refl,
        (
          own_bye junk (record mb { incoming_mails = [] }),
          refl,
          sym (append_assoc p.taken mb.outgoing_mails _),
        ),
      ),
    )

-- Where the display name is none that `validateDisplayName` accepts, as `/rename` can leave it, the
-- listener throws at the signal instead, and no BYE is sent.
pub signal-invalid_name :
    (junk : MessageType) (bytes : Bytes) (l : Listener)
    → passes is_graphic 20 l.mailbox.display_name ≡ false
    → handle junk (signal_ready (chunk bytes)) l [] ≡ throw (invalid display_name_field)
unfolding handle listen_signal signal_end write_mail_type make_error
signal-invalid_name junk bytes l n = rw n refl
