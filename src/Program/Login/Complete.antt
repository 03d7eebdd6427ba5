-- ===== src/Program/Login/Complete.antt =====
-- src/main.cpp, runMain: from the command /auth to the conversation, by UDP.
use tcp_udp_chat_server.Program.Login.Answers.{answering_turns, own_confirm}
use tcp_udp_chat_server.Program.Login.Opens.{
  answering_turns-conversing, conversing, conversing-Reach,
}
use tcp_udp_chat_server.StdinListener.Delivery.{CanWrite}
use tcp_udp_chat_server.Program.Turns.{run_turns}
use tcp_udp_chat_server.Program.Login.Lines.{asking_turns, auth_with}
use tcp_udp_chat_server.Program.Steps.{Reach-trans}
use tcp_udp_chat_server.MailBox.State.{udp}
use tcp_udp_chat_server.Mail.Valid.{IsValid}
use tcp_udp_chat_server.Serializer.{serialize}
use tcp_udp_chat_server.Program.Steps.{Reach}
use tcp_udp_chat_server.Program.State.{Program, start_program}
use tcp_udp_chat_server.Program.Login.Asks.{asking_turns-auth_sent, auth_sent-Reach}
use tcp_udp_chat_server.Pipe.{Pipe}
use tcp_udp_chat_server.MailBox.Udp.{uint16_of}
use tcp_udp_chat_server.Mail.Validate.{is_printable, passes}
use tcp_udp_chat_server.Mail.Types.{auth_message, AuthMessage, MessageType}
use tcp_udp_chat_server.Mail.Print.{cerr, endl}
use tcp_udp_chat_server.Fsm.{at_open}
use tcp_udp_chat_server.Common.{ok, Bytes, [], codes, length, refl, true, ℕ, ◌++◌, ◌∷◌, ◌≡◌, ◌≤◌}
use tcp_udp_chat_server.ArgumentParser.Parse.{Args}

module _ (junk : MessageType) (a : Args) (pipe : Pipe) (m : AuthMessage) where
  -- By UDP, from the start, with a pipe that can be written into, where these come one after the
  -- other: the user types /auth with a valid username, secret and display name; the state machine
  -- makes a round; the listener finds the byte that announces a mail; the server's CONFIRM of the
  -- id 0 comes, from the port `x`, and then its positive REPLY to the id 0, from the port `y`, with
  -- a valid content of at most 1017 bytes, while the host's name still resolves; and the state
  -- machine makes a round. Then nothing has thrown, and the program has reached, by steps, a state
  -- in which the conversation is open; the AUTH, with the id 0, and the CONFIRM of the id of the
  -- REPLY, as it is read, have been sent, and nothing else; no CONFIRM is awaited; `Success` with
  -- the content was printed; and what is sent next goes to the port `y`.
  pub login :
      (x y hi lo : ℕ) (content : Bytes)
      → IsValid (auth_message m)
      → CanWrite pipe
      → passes is_printable 1400 content ≡ true
      → length content ≤ 1017
      → (q : Program) × (run_turns junk
            (asking_turns m ++ answering_turns x y hi lo content)
            (start_program junk (record a { type = udp }) pipe)
          ≡ ok q)
        × Reach junk (start_program junk (record a { type = udp }) pipe) q
        × (q.state ≡ at_open)
        × (q.listener.connection.sent
            ≡ serialize true (auth_with junk m 0)
              ∷ serialize true (own_confirm junk (uint16_of hi lo))
              ∷ [])
        × (q.listener.received_confirm ≡ true)
        × (q.out ≡ cerr (codes "Success: " ++ content ++ endl) ∷ [])
        × (q.listener.connection.port ≡ y)
  login x y hi lo content v w printable short = (
    conversing junk a pipe m y (uint16_of hi lo) content,
    asking_turns-auth_sent junk a pipe m _ _ v w
        (answering_turns-conversing junk a pipe m x y hi lo content printable short),
    Reach-trans junk _ _ _ (auth_sent-Reach junk a pipe m v w)
        (conversing-Reach junk a pipe m x y hi lo content printable short),
    refl,
    refl,
    refl,
    refl,
    refl,
  )
