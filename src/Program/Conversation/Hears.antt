-- ===== src/Program/Conversation/Hears.antt =====
-- src/main.cpp, runMain: a message of the server, from the socket to the screen, by UDP.
use tcp_udp_chat_server.Program.Conversation.Talks.{Talks, same_protocol}
use tcp_udp_chat_server.Fsm.{next}
use tcp_udp_chat_server.Program.Turns.{
  Turn, heard-eq, listener_event, main_round, round-eq, run_turns, turn-then,
}
use tcp_udp_chat_server.Program.State.{Program, fsm_of, looping, with_fsm, with_listener}
use tcp_udp_chat_server.MailBox.Laws.{wait_mail-cons}
use tcp_udp_chat_server.Mail.Print.{Output, cout, endl}
use tcp_udp_chat_server.Fsm.{Fsm, at_open, on_open, round, round_in, take_mail}
use tcp_udp_chat_server.Serializer.{serialize}
use tcp_udp_chat_server.Program.Login.Answers.{own_confirm}
use tcp_udp_chat_server.Net.{packet, send_data}
use tcp_udp_chat_server.MailBox.Wire.{write_mail_buffer}
use tcp_udp_chat_server.MailBox.Udp.RoundTrip.{
  as_sent, arrival, complaint, is_queued, reread, write_udp_mail-serialize,
}
use tcp_udp_chat_server.MailBox.State.{MailBox, udp}
use tcp_udp_chat_server.MailBox.Queue.{announce_as, add_mail}
use tcp_udp_chat_server.MailBox.Local.{write_mail_type}
use tcp_udp_chat_server.Mail.Valid.{IsValid}
use tcp_udp_chat_server.Mail.Types.{
  Mail, MessageType, TextMessage, data_message_id, msg, new_mail, text_message, type_of_data,
}
use tcp_udp_chat_server.Listener.Unconfirmed.{write_by_udp}
use tcp_udp_chat_server.Listener.StillAwaits.{ByUdp}
use tcp_udp_chat_server.Listener.State.{Listener}
use tcp_udp_chat_server.Listener.Loop.{handle, socket_ready}
use tcp_udp_chat_server.Listener.Handlers.{
  dispatch_udp, on_other, receive_mail, send, set_srv_msg_id,
}
use tcp_udp_chat_server.Listener.Datagram.{receive_data-fits, socket-handled}
use tcp_udp_chat_server.Common.{
  List, Result, ℤ, ap, codes, Bytes, [], false, leb_ℤ, length, ok, pos, refl, true, ℕ, ◌++◌, ◌∙◌,
  ◌∷◌, ◌≡◌, ◌≤◌,
}

-- The MSG as the server sends it.
abbrev pub server_text : TextMessage → Mail
server_text m = record {
  type = msg;
  payload = text_message m;
  add_to_mail_queue = true;
  sigint = false;
}

-- The mail that is made of it: its id is as `readUInt16` reads it.
abbrev pub text_read : MessageType → TextMessage → Mail
text_read junk m = record (new_mail junk) {
  type = msg;
  payload = text_message (record m { to_send = false; message_id = pos (as_sent m.message_id) });
}

server_text-read :
    (junk : MessageType) (m : TextMessage) (more : Bytes) (mb : MailBox)
    → mb.delivery_service ≡ udp
    → IsValid (text_message m)
    → write_mail_buffer (serialize true (server_text m) ++ more) (new_mail junk) mb
      ≡ ok (true, text_read junk m, [])
unfolding type_of_data arrival complaint reread is_queued
server_text-read junk m more mb u v =
    write_by_udp (serialize true (server_text m) ++ more) (new_mail junk) mb u
    ∙ write_udp_mail-serialize (server_text m) mb.delivery_service more (new_mail junk) refl v
        (λ e. cc)

-- The listener once it has taken a new message with the id `id`.
abbrev pub took_text : MessageType → TextMessage → Listener → ℕ → Listener
took_text junk m l port = record l {
  mailbox = record l.mailbox {
    incoming_mails = l.mailbox.incoming_mails ++ text_read junk m ∷ [];
    srv_msg_id = pos (as_sent m.message_id);
  };
  connection = record l.connection {
    port = port;
    sent = l.connection.sent ++ serialize true (own_confirm junk (as_sent m.message_id)) ∷ [];
  };
}

receive_text :
    (junk : MessageType) (m : TextMessage) (l : Listener)
    → ByUdp l
    → l.connection.send_fails ≡ false
    → leb_ℤ (pos (as_sent m.message_id)) l.mailbox.srv_msg_id ≡ false
    → receive_mail junk (text_read junk m) [] l
      ≡ ok (true, took_text junk m l l.connection.port, [])
unfolding receive_mail write_mail_type dispatch_udp on_other set_srv_msg_id send send_data add_mail
    data_message_id
receive_text junk m l u w n = rw (u.protocol_is, n, w, u.connection_is) refl

text-handled :
    (junk : MessageType) (m : TextMessage) (l : Listener) (port : ℕ)
    → ByUdp l
    → l.connection.send_fails ≡ false
    → leb_ℤ (pos (as_sent m.message_id)) l.mailbox.srv_msg_id ≡ false
    → IsValid (text_message m)
    → length (serialize true (server_text m)) ≤ 1024
    → handle junk (socket_ready (packet (serialize true (server_text m)) port true)) l []
      ≡ ok (took_text junk m l port, [])
unfolding serialize
text-handled junk m l port u w n v short =
    let event = packet (serialize true (server_text m)) port true in
    let moved = record l { connection = record l.connection { port = port } } in
    let got = receive_data-fits _ _ port l.connection u.connection_is short in
    socket-handled junk event l (took_text junk m l port) _ _ _ got
      (server_text-read junk m _ l.mailbox u.service_is v)
      (receive_text junk m moved
        (record {
          protocol_is = u.protocol_is;
          service_is = u.service_is;
          connection_is = u.connection_is;
        })
        w n)

-- What is printed of it.
abbrev pub shown : TextMessage → Output
shown m = cout (m.display_name ++ codes ": " ++ m.message_content ++ endl)

-- The state machine in OPEN, with that mail as the only one.
text-round :
    (junk : MessageType) (m : TextMessage) (f : Fsm)
    → f.state ≡ at_open
    → f.mailbox.incoming_mails ≡ text_read junk m ∷ []
    → round f
      ≡ next (record {
        state = f.state;
        mailbox = record f.mailbox { incoming_mails = [] };
        mail = text_read junk m;
        out = f.out ++ shown m ∷ [];
      })
unfolding round_in take_mail announce_as on_open
text-round junk m f s i =
    ap (λ t. round_in t f) s ∙ rw (wait_mail-cons f.mailbox (text_read junk m) [] i, take_mail) refl

-- The program after it.
abbrev pub after_text : MessageType → TextMessage → ℕ → Program → Program
after_text junk m port p =
    let l = took_text junk m p.listener port in
    with_fsm
      (record {
        state = p.state;
        mailbox = record l.mailbox { incoming_mails = [] };
        mail = text_read junk m;
        out = p.out ++ shown m ∷ [];
      })
      looping (with_listener l p)

-- The message comes from the port `port`, and the state machine makes a round.
abbrev pub hearing : TextMessage → ℕ → List Turn
hearing m port =
    listener_event (socket_ready (packet (serialize true (server_text m)) port true))
    ∷ main_round
    ∷ []

-- What a message must be to be heard: valid, short enough for the array, and with an id that is
-- above the latest one, as it is read.
pub record CanHear (m : TextMessage) (latest : ℤ) : Type 0 where
  pub is_valid : IsValid (text_message m)
  pub fits : length (serialize true (server_text m)) ≤ 1024
  pub is_new : leb_ℤ (pos (as_sent m.message_id)) latest ≡ false

-- And then whatever follows.
pub hearing-after_text :
    (junk : MessageType) (m : TextMessage) (port : ℕ) (p : Program) (rest : List Turn)
    (r : Result Program)
    → Talks p
    → CanHear m p.listener.mailbox.srv_msg_id
    → run_turns junk rest (after_text junk m port p) ≡ r
    → run_turns junk (hearing m port ++ rest) p ≡ r
hearing-after_text junk m port p rest r t h after =
    let l = took_text junk m p.listener port in
    let q = after_text junk m port p in
    turn-then junk _ _ p (with_listener l p) r
      (heard-eq junk _ p l
        (text-handled junk m p.listener port t.by_udp t.sends h.is_new h.is_valid h.fits))
      (turn-then junk _ _ (with_listener l p) q r
        (round-eq junk (with_listener l p) (fsm_of q) (
          text-round junk m (fsm_of (with_listener l p)) t.is_open
            (ap (λ ms. ms ++ text_read junk m ∷ []) t.none_in)))
        after)

pub after_text-Talks :
    (junk : MessageType) (m : TextMessage) (port : ℕ) (p : Program)
    → Talks p
    → Talks (after_text junk m port p)
after_text-Talks junk m port p t = record {
  by_udp = same_protocol p.listener (after_text junk m port p).listener t.by_udp refl refl refl;
  is_open = t.is_open;
  none_in = refl;
  none_out = t.none_out;
  none_awaited = t.none_awaited;
  sends = t.sends;
  pipe = t.pipe;
  notifies = t.notifies;
  can_write = t.can_write;
}
