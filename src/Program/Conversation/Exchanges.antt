-- ===== src/Program/Conversation/Exchanges.antt =====
-- src/main.cpp, runMain: a whole conversation, message by message, by UDP.
use tcp_udp_chat_server.Serializer.{serialize}
use tcp_udp_chat_server.Program.Turns.{Turn, run_turns, turns_over}
use tcp_udp_chat_server.Program.State.{Program}
use tcp_udp_chat_server.Program.Login.Answers.{own_confirm}
use tcp_udp_chat_server.Program.Conversation.Talks.{Talks}
use tcp_udp_chat_server.Program.Conversation.Says.{
  confirmed_text, confirmed_text-Talks, saying, saying-confirmed_text,
}
use tcp_udp_chat_server.Program.Conversation.Lines.{IsText, said_as}
use tcp_udp_chat_server.Program.Conversation.Hears.{
  CanHear, after_text, after_text-Talks, hearing, hearing-after_text,
}
use tcp_udp_chat_server.MailBox.Udp.RoundTrip.{as_sent}
use tcp_udp_chat_server.Mail.Types.{MessageType, TextMessage}
use tcp_udp_chat_server.Mail.Print.{Output, cout, endl}
use tcp_udp_chat_server.Fsm.History.{latest}
use tcp_udp_chat_server.Fsm.{run}
use tcp_udp_chat_server.Common.{
  Bytes, List, [], append-nil, append_assoc, codes, ok, pos, sym, true, u16_mod, ℕ, ℤ, ◌%◌, ◌++◌,
  ◌+◌, ◌∙◌, ◌∷◌, ◌≡◌,
}

-- The user types a line, whose CONFIRM comes from a port, or a message comes from a port.
pub data Exchange : Type 0 where
  says : Bytes → ℕ → Exchange
  hears : TextMessage → ℕ → Exchange

-- The turns of the threads, by the number of the mailbox at the beginning.
unfoldable pub exchange_turns : ℕ → List Exchange → List Turn
exchange_turns n [] = []
exchange_turns n (says line port ∷ es) = saying line port n ++ exchange_turns ((n + 1) % u16_mod) es
exchange_turns n (hears m port ∷ es) = hearing m port ++ exchange_turns n es

-- Every line is a message of that name, whose number is read as it is; every message can be heard,
-- where the latest id at the beginning is given.
unfoldable pub CanTalk : Bytes → ℕ → ℤ → List Exchange → Type 0
CanTalk name n latest [] = Unit {0}
CanTalk name n latest (says line port ∷ es) =
    IsText line name × (as_sent (pos n) ≡ n) × CanTalk name ((n + 1) % u16_mod) latest es
CanTalk name n latest (hears m port ∷ es) =
    CanHear m latest × CanTalk name n (pos (as_sent m.message_id)) es

-- What the client sends: a MSG for each line, numbered one after the other, and a CONFIRM for each
-- message.
unfoldable pub datagrams : MessageType → Bytes → ℕ → List Exchange → List Bytes
datagrams junk name n [] = []
datagrams junk name n (says line port ∷ es) =
    serialize true (said_as junk line name n) ∷ datagrams junk name ((n + 1) % u16_mod) es
datagrams junk name n (hears m port ∷ es) =
    serialize true (own_confirm junk (as_sent m.message_id)) ∷ datagrams junk name n es

-- What the user sees: each message, and nothing of what was typed.
unfoldable pub screen : List Exchange → List Output
screen [] = []
screen (says line port ∷ es) = screen es
screen (hears m port ∷ es) =
    cout (m.display_name ++ codes ": " ++ m.message_content ++ endl) ∷ screen es

module _ (junk : MessageType) where
  -- By UDP, in an open conversation in which no mail is in a queue, no CONFIRM is awaited, the pipe
  -- can be written to and the kernel takes what is sent: where the user types lines that are
  -- messages of at most 1022 bytes under a valid name, each confirmed before what follows, under
  -- numbers that are read as they are, and messages of the server come that are valid, fit into the
  -- array and have ids that rise as they are read, in any order, while the host's name still
  -- resolves, then nothing throws, and the conversation is open in the same way; each line was sent
  -- as it was typed, under that name and with the next number, each message was confirmed, in that
  -- order, and nothing else was sent; each message was shown, once and in order, and neither thread
  -- printed anything else.
  pub conversation :
      (es : List Exchange) (p : Program)
      → Talks p
      → CanTalk p.listener.mailbox.display_name p.listener.mailbox.sequence_udp_number
          p.listener.mailbox.srv_msg_id es
      → (q : Program) × (run_turns junk (exchange_turns p.listener.mailbox.sequence_udp_number es) p
          ≡ ok q)
        × Talks q
        × (q.out ≡ p.out ++ screen es)
        × (q.listener.connection.sent
            ≡ p.listener.connection.sent
              ++ datagrams junk p.listener.mailbox.display_name
                  p.listener.mailbox.sequence_udp_number es)
  unfolding exchange_turns CanTalk datagrams screen
  conversation [] p t c =
      (p, turns_over junk p, t, sym (append-nil p.out), sym (append-nil p.listener.connection.sent))
  conversation (says line port ∷ es) p t c =
      let k = confirmed_text junk line t.pipe port p in
      let (q, run, talks, out, sent) =
        conversation es k (confirmed_text-Talks junk line port p t) c.2 in
      (
        q,
        saying-confirmed_text junk line port p _ _ t c.0 c.1 run,
        talks,
        out,
        sent ∙ append_assoc p.listener.connection.sent _ _,
      )
  conversation (hears m port ∷ es) p t c =
      let k = after_text junk m port p in
      let (q, run, talks, out, sent) = conversation es k (after_text-Talks junk m port p t) c.1 in
      (
        q,
        hearing-after_text junk m port p _ _ t c.0 run,
        talks,
        out ∙ append_assoc p.out _ _,
        sent ∙ append_assoc p.listener.connection.sent _ _,
      )
