-- ===== src/Program/Session.antt =====
-- src/main.cpp, runMain: from the start of the program, by UDP, through the login and a
-- conversation.
use tcp_udp_chat_server.StdinListener.Delivery.{CanWrite}
use tcp_udp_chat_server.Serializer.{serialize}
use tcp_udp_chat_server.Program.Turns.{run_turns, turns-append}
use tcp_udp_chat_server.Program.State.{Program, start_program}
use tcp_udp_chat_server.Program.Login.Opens.{answering_turns-conversing, conversing}
use tcp_udp_chat_server.Program.Login.Lines.{asking_turns, auth_with}
use tcp_udp_chat_server.Program.Login.Asks.{asking_turns-auth_sent}
use tcp_udp_chat_server.Program.Login.Answers.{answering_turns, own_confirm}
use tcp_udp_chat_server.Program.Conversation.Talks.{Talks, wrote-CanWrite}
use tcp_udp_chat_server.Program.Conversation.Exchanges.{
  CanTalk, Exchange, conversation, datagrams, exchange_turns, screen,
}
use tcp_udp_chat_server.Pipe.{Pipe}
use tcp_udp_chat_server.Net.{make_connection}
use tcp_udp_chat_server.MailBox.Udp.{uint16_of}
use tcp_udp_chat_server.MailBox.State.{udp}
use tcp_udp_chat_server.Mail.Validate.{is_printable, passes}
use tcp_udp_chat_server.Mail.Valid.{IsValid}
use tcp_udp_chat_server.Mail.Types.{AuthMessage, MessageType, auth_message}
use tcp_udp_chat_server.Mail.Print.{cerr, endl}
use tcp_udp_chat_server.Listener.State.{make_listener}
use tcp_udp_chat_server.Common.{
  Bytes, List, codes, length, ok, pos, refl, true, ℕ, ◌++◌, ◌∷◌, ◌≡◌, ◌≤◌,
}
use tcp_udp_chat_server.ArgumentParser.Parse.{Args}

module _ (junk : MessageType) (a : Args) (pipe : Pipe) (m : AuthMessage) where
  conversing-Talks :
      (y id : ℕ) (content : Bytes) → CanWrite pipe → Talks (conversing junk a pipe m y id content)
  unfolding start_program make_listener make_connection
  conversing-Talks y id content w = record {
    by_udp = record { protocol_is = refl; service_is = refl; connection_is = refl };
    is_open = refl;
    none_in = refl;
    none_out = refl;
    none_awaited = refl;
    sends = refl;
    pipe = record pipe { written = pipe.written ++ codes "1" };
    notifies = refl;
    can_write = wrote-CanWrite pipe (codes "1") w;
  }

  -- By UDP, from the start, with a pipe that can be written into, where the turns of the login
  -- come, with a valid command and a valid positive REPLY of at most 1017 bytes of content, and
  -- then those of a conversation that can be held: under the display name of the command, the
  -- number 1 and the id of the REPLY as it is read, each line of the user is a message of at most
  -- 1022 bytes under a valid name, confirmed before what follows, whose number is read as it is,
  -- and each message of the server is valid, fits into the array and has an id above the latest one
  -- as it is read; the host's name still resolves. Then nothing throws, and the conversation is
  -- open with nothing under way; the server was sent the AUTH with the id 0, the CONFIRM of the
  -- REPLY, and then, in the order of the conversation, each line as the MSG with the next number
  -- and the CONFIRM of each message, and nothing else; and what the two threads printed is
  -- `Success` with the content, then each message, in order, and nothing else.
  pub session :
      (x y hi lo : ℕ) (content : Bytes) (es : List Exchange)
      → IsValid (auth_message m)
      → CanWrite pipe
      → passes is_printable 1400 content ≡ true
      → length content ≤ 1017
      → CanTalk m.display_name 1 (pos (uint16_of hi lo)) es
      → (q : Program) × (run_turns junk
            ((asking_turns m ++ answering_turns x y hi lo content) ++ exchange_turns 1 es)
            (start_program junk (record a { type = udp }) pipe)
          ≡ ok q)
        × Talks q
        × (q.listener.connection.sent
            ≡ serialize true (auth_with junk m 0)
              ∷ serialize true (own_confirm junk (uint16_of hi lo))
              ∷ datagrams junk m.display_name 1 es)
        × (q.out ≡ cerr (codes "Success: " ++ content ++ endl) ∷ screen es)
  unfolding start_program
  session x y hi lo content es v w printable short c =
      let open_now = conversing junk a pipe m y (uint16_of hi lo) content in
      let (q, run, talks, out, sent) =
        conversation junk es open_now (conversing-Talks y (uint16_of hi lo) content w) c in
      (
        q,
        turns-append junk _ _ _ open_now (ok q)
            (asking_turns-auth_sent junk a pipe m _ _ v w
              (answering_turns-conversing junk a pipe m x y hi lo content printable short))
            run,
        talks,
        sent,
        out,
      )
