-- ===== src/Listener/Lines.antt =====
-- src/listeners.cpp, Listener::listenStdin: which bytes of a read become mails.
use tcp_udp_chat_server.Listener.State.{Listener, chunk}
use tcp_udp_chat_server.MailBox.State.{MailBox}
use tcp_udp_chat_server.MailBox.Queue.{add_mail}
use tcp_udp_chat_server.MailBox.Commands.{write_mail_line}
use tcp_udp_chat_server.Mail.Types.{MessageType, new_mail}
use tcp_udp_chat_server.Mail.Print.{Output}
use tcp_udp_chat_server.Listener.Handlers.{stdin_room, listen_stdin, stdin_loop}
use tcp_udp_chat_server.Common.{
  take, >>=_ext, all, arith, not, Bool-cases, Bytes, List, Result, [], beq, false, inl, inr, ok,
  refl, true, ◌++◌, ◌==◌, ◌>>=◌, ◌∷◌, ◌≡◌,
}

-- The lines of a text that are ended by \n, the empty ones left out; `line` is what has been read
-- of the first one. What stands behind the last \n is no line.
unfoldable pub complete_lines : Bytes → Bytes → List Bytes
complete_lines [] line = []
complete_lines (c ∷ cs) line = elim (c == b'\n') [
  | true ↦ elim (beq line []) [
    | true ↦ complete_lines cs line
    | false ↦ line ∷ complete_lines cs []
  ]
  | false ↦ complete_lines cs (line ++ c ∷ [])
]

-- Each line is written as a mail and added to the mailbox, in order.
unfoldable pub enter_lines :
    MessageType → List Bytes → MailBox → List Output → Result (MailBox × List Output)
enter_lines junk [] mb out = ok (mb, out)
enter_lines junk (line ∷ lines) mb out = write_mail_line line (new_mail junk) mb >>= λ r.
    enter_lines junk lines (add_mail r.0 r.1) (out ++ r.2)

stdin_loop-enter_lines :
    (junk : MessageType) (bytes line : Bytes) (mb : MailBox) (out : List Output)
    → stdin_loop junk bytes line mb out ≡ enter_lines junk (complete_lines bytes line) mb out
unfolding stdin_loop enter_lines complete_lines
stdin_loop-enter_lines junk [] line mb out = refl
stdin_loop-enter_lines junk (c ∷ cs) line mb out = elim (Bool-cases (c == b'\n')) [
  | inr n ↦
      rw (n, stdin_loop, complete_lines) (stdin_loop-enter_lines junk cs (line ++ c ∷ []) mb out)
  | inl y ↦ elim (Bool-cases (beq line [])) [
    | inl e ↦ rw (y, e, stdin_loop, complete_lines) (stdin_loop-enter_lines junk cs line mb out)
    | inr f ↦
        rw (y, f, stdin_loop, complete_lines)
          (>>=_ext (write_mail_line line (new_mail junk) mb) _ _
            (λ r. stdin_loop-enter_lines junk cs [] (add_mail r.0 r.1) (out ++ r.2)))
  ]
]

pub listen_stdin-enter_lines :
    (junk : MessageType) (bytes : Bytes) (l : Listener)
    → listen_stdin junk (chunk bytes) l ≡ (
        enter_lines junk (complete_lines (take stdin_room bytes) []) l.mailbox [] >>= λ r.
        ok (true, record l { mailbox = r.0 }, r.1))
unfolding listen_stdin
listen_stdin-enter_lines junk bytes l =
    rw (stdin_loop-enter_lines junk (take stdin_room bytes) [] l.mailbox [])

complete_lines-none :
    (bytes line : Bytes) → all (λ c. not (c == b'\n')) bytes ≡ true → complete_lines bytes line ≡ []
unfolding complete_lines all
complete_lines-none [] line h = refl
complete_lines-none (c ∷ cs) line h = ground (arith, complete_lines-none cs (line ++ c ∷ []))

-- A read of stdin's pipe that takes no \n changes nothing, whatever it took: a line that it begins
-- loses this part.
pub split_line_lost :
    (junk : MessageType) (bytes : Bytes) (l : Listener)
    → all (λ c. not (c == b'\n')) (take stdin_room bytes) ≡ true
    → listen_stdin junk (chunk bytes) l ≡ ok (true, l, [])
unfolding enter_lines
split_line_lost junk bytes l h =
    rw (listen_stdin-enter_lines, complete_lines-none (take stdin_room bytes) [] h)
