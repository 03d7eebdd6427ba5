-- ===== src/Program/Login/Lines.antt =====
-- src/listeners.cpp, Listener::listenStdin: a line with the command /auth, from the keyboard to the
-- mailbox.
use tcp_udp_chat_server.Program.Turns.{Turn, listener_event, main_round}
use tcp_udp_chat_server.StdinListener.Delivery.{
  lines_read, text_length, nonempty, not_newline, text_of_lines,
}
use tcp_udp_chat_server.MailBox.Typing.{write_mail_line-auth}
use tcp_udp_chat_server.MailBox.Tcp.RoundTrip.{all-append}
use tcp_udp_chat_server.MailBox.Tcp.Lines.{all_mono}
use tcp_udp_chat_server.MailBox.State.{MailBox}
use tcp_udp_chat_server.MailBox.Queue.{add_mail}
use tcp_udp_chat_server.Mail.Validate.{is_graphic, is_word}
use tcp_udp_chat_server.Mail.Valid.{IsValid, passes_iff}
use tcp_udp_chat_server.Mail.Types.{AuthMessage, Mail, MessageType, auth, auth_message, new_mail}
use tcp_udp_chat_server.Listener.State.{Listener, chunk}
use tcp_udp_chat_server.Listener.Loop.{to_send_ready, handle, stdin_ready}
use tcp_udp_chat_server.Listener.Lines.{enter_lines, listen_stdin-enter_lines}
use tcp_udp_chat_server.Common.{
  length, length-append, ◌≤◌, List, Bytes, [], all, arith, beq, codes, ok, refl, true, ℕ, ◌++◌, ◌∷◌,
  ◌≡◌,
}

-- The command that the user types.
abbrev pub auth_line : AuthMessage → Bytes
auth_line m = codes "/auth " ++ (m.username ++ (b' ' ∷ (m.secret ++ (b' ' ∷ m.display_name))))

-- The AUTH that is made of it, with the number `n`.
abbrev pub auth_with : MessageType → AuthMessage → ℕ → Mail
auth_with junk m n = record (new_mail junk) {
  type = auth;
  payload = auth_message (record m { message_id = n });
}

word_no_newline : (s : Bytes) → all is_word s ≡ true → all not_newline s ≡ true
unfolding is_word
word_no_newline s h = all_mono is_word not_newline s (λ c w. ground arith) h

graphic_no_newline : (s : Bytes) → all is_graphic s ≡ true → all not_newline s ≡ true
unfolding is_graphic
graphic_no_newline s h = all_mono is_graphic not_newline s (λ c w. ground arith) h

auth_line-one : (m : AuthMessage) → IsValid (auth_message m) → all not_newline (auth_line m) ≡ true
unfolding IsValid
auth_line-one m v =
    let words = word_no_newline m.username ((passes_iff is_word 20 m.username).0 v.0).2 in
    let secrets = word_no_newline m.secret ((passes_iff is_word 128 m.secret).0 v.2).2 in
    let names =
      graphic_no_newline m.display_name ((passes_iff is_graphic 20 m.display_name).0 v.1).2 in
    simp (all-append, words) (unfold all in simp (all-append, secrets) (unfold all in names))

auth_line-short : (m : AuthMessage) → IsValid (auth_message m) → length (auth_line m) ≤ 1022
unfolding IsValid
auth_line-short m v =
    let words = ((passes_iff is_word 20 m.username).0 v.0).1 in
    let secrets = ((passes_iff is_word 128 m.secret).0 v.2).1 in
    let names = ((passes_iff is_graphic 20 m.display_name).0 v.1).1 in
    let tail = length-append m.secret (b' ' ∷ m.display_name) in
    let whole = length-append m.username (b' ' ∷ (m.secret ++ (b' ' ∷ m.display_name))) in
    omega (arith, words, secrets, names, tail, whole)

auth_line-entered :
    (junk : MessageType) (m : AuthMessage) (mb : MailBox)
    → IsValid (auth_message m)
    → enter_lines junk (nonempty (auth_line m ∷ [])) mb []
      ≡ ok (
        record mb {
          incoming_mails = mb.incoming_mails ++ auth_with junk m mb.sequence_udp_number ∷ [];
          display_name = m.display_name;
        },
        [],
      )
unfolding enter_lines nonempty beq add_mail
auth_line-entered junk m mb v = rw (write_mail_line-auth m (new_mail junk) mb v) refl

-- What the listener makes of the typed command, where the fields are valid.
pub auth_line-handled :
    (junk : MessageType) (m : AuthMessage) (l : Listener)
    → IsValid (auth_message m)
    → handle junk (stdin_ready (chunk (text_of_lines (auth_line m ∷ [])))) l []
      ≡ ok (
        record l {
          mailbox = record l.mailbox {
            incoming_mails =
                l.mailbox.incoming_mails ++ auth_with junk m l.mailbox.sequence_udp_number ∷ [];
            display_name = m.display_name;
          };
        },
        [],
      )
unfolding handle
auth_line-handled junk m l v =
    let lines =
      lines_read (auth_line m ∷ []) (auth_line-one m v, tt)
        (text_length (auth_line m) (auth_line-short m v)) in
    rw
      (
        listen_stdin-enter_lines junk (text_of_lines (auth_line m ∷ [])) l,
        lines,
        auth_line-entered junk m l.mailbox v,
      )
      refl

-- The user types the command, the state machine makes a round, and the listener finds the byte that
-- announces the AUTH.
abbrev pub asking_turns : AuthMessage → List Turn
asking_turns m =
    listener_event (stdin_ready (chunk (text_of_lines (auth_line m ∷ []))))
    ∷ main_round
    ∷ listener_event (to_send_ready (chunk (codes "1")))
    ∷ []
