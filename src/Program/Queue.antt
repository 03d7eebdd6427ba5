-- ===== src/Program/Queue.antt =====
-- src/listeners.cpp, Listener::listenToSendPipe with src/headers/mail-box.h, MailBox::sendMail: one
-- byte in the pipe for each mail in the queue.
use tcp_udp_chat_server.MailBox.State.{MailBox}
use tcp_udp_chat_server.Program.Steps.{Reach}
use tcp_udp_chat_server.Program.State.{Program, given_to_send, start_program, written_to}
use tcp_udp_chat_server.Program.Keeps.{Reach-IsSound, start_program-IsSound}
use tcp_udp_chat_server.Pipe.{Pipe}
use tcp_udp_chat_server.MailBox.Queue.{get_outgoing_mail}
use tcp_udp_chat_server.Mail.Types.{Mail, MessageType}
use tcp_udp_chat_server.Fsm.History.{Story, latest}
use tcp_udp_chat_server.Common.{
  List, arith, refl, ℕ, ◌∷◌, [], eq_ℤ, false, length, map, minus_one, out_of_bounds, throw, ◌+◌,
  ◌<◌, ◌↔◌, ◌≡◌, ◌≢◌,
}
use tcp_udp_chat_server.ArgumentParser.Parse.{Args}

-- A mail is there just where a byte is unread, if the numbers of both agree.
unread_iff :
    (mb : MailBox) (written reads : ℕ) (queue : List Mail)
    → mb.outgoing_mails ≡ queue
    → written ≡ reads + length queue
    → (reads < written ↔ (get_outgoing_mail mb ≢ throw out_of_bounds))
unfolding get_outgoing_mail
unread_iff mb w n [] q e = (λ l. omega (arith, l, e), λ n. absurd (n (ground arith)))
unread_iff mb w n (m ∷ rest) q e = (λ _. ground arith, λ _. omega (arith, e))

-- In every state that the program can reach from a start with a pipe that can be written into
-- and holds nothing, in any order of the steps of its threads: as many bytes were written into
-- the pipe as were read from it and as mails wait to be sent; and `getOutgoingMail` finds a
-- mail, and does not take the front of an empty queue, exactly where a byte is unread.
pub outgoing_never_empty :
    (junk : MessageType) (a : Args) (pipe : Pipe) (p : Program)
    → eq_ℤ pipe.write_fd minus_one ≡ false
    → pipe.written ≡ []
    → Reach junk (start_program junk a pipe) p
    → (written_to p.listener.mailbox.notify_listener_pipe
        ≡ p.reads + length p.listener.mailbox.outgoing_mails)
      × (p.reads < written_to p.listener.mailbox.notify_listener_pipe
          ↔ (get_outgoing_mail p.listener.mailbox ≢ throw out_of_bounds))
outgoing_never_empty junk a pipe p fd empty r =
    let v = Reach-IsSound junk _ p r (start_program-IsSound junk a pipe fd empty) in
    let bytes : written_to p.listener.mailbox.notify_listener_pipe
        ≡ p.reads + length p.listener.mailbox.outgoing_mails =
      rw v.pipe_is v.told in
    (bytes, unread_iff p.listener.mailbox _ p.reads _ refl bytes)

-- In every state that the program can reach from a start with a pipe that can be written into
-- and holds nothing, in any order of the steps of its threads: the mails that were given to
-- `sendMail`, those that were taken from the queue first, have the types that `Story` allows in
-- the state of the state machine.
pub program-Story :
    (junk : MessageType) (a : Args) (pipe : Pipe) (p : Program)
    → eq_ℤ pipe.write_fd minus_one ≡ false
    → pipe.written ≡ []
    → Reach junk (start_program junk a pipe) p
    → Story p.state (latest (map (λ (m : Mail). m.type) (given_to_send p)) [])
program-Story junk a pipe p fd empty r =
    (Reach-IsSound junk _ p r (start_program-IsSound junk a pipe fd empty)).story
