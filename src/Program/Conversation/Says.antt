-- ===== src/Program/Conversation/Says.antt =====
-- src/main.cpp, runMain: a message of the user, from the keyboard to the socket, by UDP.
use tcp_udp_chat_server.Program.Conversation.Lines.{IsText, said, text-typed, typed_to}
use tcp_udp_chat_server.Program.Conversation.Talks.{Talks, same_protocol, wrote-CanWrite}
use tcp_udp_chat_server.Program.Conversation.Confirms.{
  confirm-handled, no_more_awaited, server_confirm,
}
use tcp_udp_chat_server.MailBox.Udp.RoundTrip.{as_sent}
use tcp_udp_chat_server.Program.Turns.{
  Turn, heard-eq, listener_event, main_round, round-eq, run_turns, turn-then,
}
use tcp_udp_chat_server.Program.State.{Program, fsm_of, looping, took_one, with_fsm, with_listener}
use tcp_udp_chat_server.Net.{packet, send_data}
use tcp_udp_chat_server.Listener.StillAwaits.{ByUdp}
use tcp_udp_chat_server.Listener.Handlers.{
  await_confirm, listen_to_send_pipe, note_bye, send, send_outgoing,
}
use tcp_udp_chat_server.Fsm.{next}
use tcp_udp_chat_server.Serializer.{serialize}
use tcp_udp_chat_server.Pipe.{Pipe}
use tcp_udp_chat_server.MailBox.Laws.{wait_mail-cons}
use tcp_udp_chat_server.Fsm.{Fsm, at_open, on_open, round, round_in, send_to, take_mail}
use tcp_udp_chat_server.StdinListener.Delivery.{CanWrite, write-CanWrite, text_of_lines}
use tcp_udp_chat_server.MailBox.State.{MailBox}
use tcp_udp_chat_server.MailBox.Queue.{get_outgoing_mail, announce_as, send_mail}
use tcp_udp_chat_server.Mail.Types.{data_message_id, data_message_id, Mail, MessageType}
use tcp_udp_chat_server.Listener.State.{Listener, chunk}
use tcp_udp_chat_server.Listener.Loop.{socket_ready, to_send_ready, handle, stdin_ready}
use tcp_udp_chat_server.Common.{
  List, Result, ℕ, append-nil, ap, codes, some, u16_mod, ◌%◌, ◌+◌, ◌∙◌, Bytes, [], false, ok, pos,
  refl, true, ◌++◌, ◌∷◌, ◌≡◌,
}

-- The state machine in OPEN, with that mail as the only one: it is numbered, queued and announced.
abbrev passed_on : MessageType → Bytes → Pipe → Fsm → Fsm
passed_on junk line pipe f = record {
  state = f.state;
  mailbox = record f.mailbox {
    incoming_mails = [];
    outgoing_mails = f.mailbox.outgoing_mails ++ said junk line f.mailbox ∷ [];
    sequence_udp_number = (f.mailbox.sequence_udp_number + 1) % u16_mod;
    notify_listener_pipe = some (record pipe { written = pipe.written ++ codes "1" });
  };
  mail = said junk line f.mailbox;
  out = f.out;
}

said-round :
    (junk : MessageType) (line : Bytes) (pipe : Pipe) (f : Fsm)
    → f.state ≡ at_open
    → f.mailbox.incoming_mails ≡ said junk line f.mailbox ∷ []
    → f.mailbox.notify_listener_pipe ≡ some pipe
    → CanWrite pipe
    → round f ≡ next (passed_on junk line pipe f)
unfolding round_in take_mail announce_as on_open send_to send_mail
said-round junk line pipe f s i n w =
    ap (λ t. round_in t f) s
    ∙ rw
        (
          wait_mail-cons f.mailbox (said junk line f.mailbox) [] i,
          take_mail,
          n,
          write-CanWrite pipe (codes "1") w,
        )
        (ap (λ o. next (record (passed_on junk line pipe f) { out = o })) (append-nil f.out))

-- The listener once it has sent that mail, which is the only one that waits to be sent.
abbrev sent_text : Mail → Listener → Listener
sent_text mail l = record l {
  mailbox = record l.mailbox { outgoing_mails = [] };
  connection = record l.connection { sent = l.connection.sent ++ serialize true mail ∷ [] };
  received_confirm = false;
  ref_msg_id = data_message_id mail.payload;
  conf_mail = mail;
}

said-sent :
    (junk : MessageType) (line : Bytes) (mb : MailBox) (l : Listener)
    → ByUdp l
    → l.connection.send_fails ≡ false
    → l.mailbox.outgoing_mails ≡ said junk line mb ∷ []
    → handle junk (to_send_ready (chunk (codes "1"))) l []
      ≡ ok (sent_text (said junk line mb) l, [])
unfolding handle listen_to_send_pipe send_outgoing get_outgoing_mail send send_data note_bye
    await_confirm data_message_id
said-sent junk line mb l u w o = simp (o, w, u.connection_is, u.protocol_is) refl

-- The program after the user's line, after the round, and after the sending.
abbrev typed_in : MessageType → Bytes → Program → Program
typed_in junk line p =
    with_listener (record p.listener { mailbox = typed_to junk line p.listener.mailbox }) p

abbrev queued : MessageType → Bytes → Pipe → Program → Program
queued junk line pipe p =
    with_fsm (passed_on junk line pipe (fsm_of (typed_in junk line p))) looping
      (typed_in junk line p)

abbrev pub sent_off : MessageType → Bytes → Pipe → Program → Program
sent_off junk line pipe p =
    let q = queued junk line pipe p in
    took_one (sent_text (said junk line p.listener.mailbox) q.listener) q

-- The CONFIRM of the id `n` comes from the port `port`.
abbrev pub confirm_turn : ℕ → ℕ → Turn
confirm_turn port n =
    listener_event (socket_ready (packet (serialize true (server_confirm n)) port true))

-- The user types the line, the state machine makes a round, the listener finds the byte that
-- announces a mail, and the CONFIRM of the id `n` comes from the port `port`.
abbrev pub saying : Bytes → ℕ → ℕ → List Turn
saying line port n =
    listener_event (stdin_ready (chunk (text_of_lines (line ∷ []))))
    ∷ main_round
    ∷ listener_event (to_send_ready (chunk (codes "1")))
    ∷ confirm_turn port n
    ∷ []

-- The first three of them, and then whatever follows.
pub saying-sent_off :
    (junk : MessageType) (line : Bytes) (port : ℕ) (p : Program) (rest : List Turn)
    (r : Result Program) (t : Talks p)
    → IsText line p.listener.mailbox.display_name
    → run_turns junk
        (confirm_turn port p.listener.mailbox.sequence_udp_number ∷ rest)
        (sent_off junk line t.pipe p)
      ≡ r
    → run_turns junk (saying line port p.listener.mailbox.sequence_udp_number ++ rest) p ≡ r
saying-sent_off junk line port p rest r t x after =
    let mail = said junk line p.listener.mailbox in
    let a = typed_in junk line p in
    let b = queued junk line t.pipe p in
    let c = sent_off junk line t.pipe p in
    turn-then junk _ _ p a r (heard-eq junk _ p a.listener (text-typed junk line p.listener x)) (
      turn-then junk _ _ a b r
        (round-eq junk a (passed_on junk line t.pipe (fsm_of a)) (
          said-round junk line t.pipe (fsm_of a) t.is_open (ap (λ ms. ms ++ mail ∷ []) t.none_in)
            t.notifies t.can_write))
        (turn-then junk _ _ b c r
          (heard-eq junk _ b (sent_text mail b.listener) (
            said-sent junk line p.listener.mailbox b.listener
              (same_protocol p.listener b.listener t.by_udp refl refl refl) t.sends
              (ap (λ ms. ms ++ mail ∷ []) t.none_out)))
          after))

pub sent_off-ByUdp :
    (junk : MessageType) (line : Bytes) (p : Program) (t : Talks p)
    → ByUdp (sent_off junk line t.pipe p).listener
sent_off-ByUdp junk line p t =
    same_protocol p.listener (sent_off junk line t.pipe p).listener t.by_udp refl refl refl

-- Where the number is read as it is.
abbrev pub confirmed_text : MessageType → Bytes → Pipe → ℕ → Program → Program
confirmed_text junk line pipe port p =
    let q = sent_off junk line pipe p in with_listener (no_more_awaited port q.listener) q

-- The whole exchange, and then whatever follows.
pub saying-confirmed_text :
    (junk : MessageType) (line : Bytes) (port : ℕ) (p : Program) (rest : List Turn)
    (r : Result Program) (t : Talks p)
    → IsText line p.listener.mailbox.display_name
    → as_sent (pos p.listener.mailbox.sequence_udp_number) ≡ p.listener.mailbox.sequence_udp_number
    → run_turns junk rest (confirmed_text junk line t.pipe port p) ≡ r
    → run_turns junk (saying line port p.listener.mailbox.sequence_udp_number ++ rest) p ≡ r
unfolding data_message_id
saying-confirmed_text junk line port p rest r t x e after =
    let n = p.listener.mailbox.sequence_udp_number in
    let c = sent_off junk line t.pipe p in
    saying-sent_off junk line port p rest r t x (
      turn-then junk _ _ c (confirmed_text junk line t.pipe port p) r
        (heard-eq junk _ c (no_more_awaited port c.listener)
          (confirm-handled junk n port c.listener (sent_off-ByUdp junk line p t) refl refl e))
        after)

pub confirmed_text-Talks :
    (junk : MessageType) (line : Bytes) (port : ℕ) (p : Program) (t : Talks p)
    → Talks (confirmed_text junk line t.pipe port p)
confirmed_text-Talks junk line port p t = record {
  by_udp =
      same_protocol p.listener (confirmed_text junk line t.pipe port p).listener t.by_udp refl refl
        refl;
  is_open = t.is_open;
  none_in = refl;
  none_out = refl;
  none_awaited = refl;
  sends = t.sends;
  pipe = record t.pipe { written = t.pipe.written ++ codes "1" };
  notifies = refl;
  can_write = wrote-CanWrite t.pipe (codes "1") t.can_write;
}
