-- ===== src/Program/Moves.antt =====
-- What each step of the program does, as the invariants see it.
use tcp_udp_chat_server.Listener.Grows.{Grows, Grows-same, handle-Grows, retry-Grows}
use tcp_udp_chat_server.Serializer.{serialize}
use tcp_udp_chat_server.Program.Steps.{
  Step, handler_in, main_gives_up, main_handles, main_stops, main_takes, thread_hears, thread_sends,
  thread_times_out, thread_turns, waits_in,
}
use tcp_udp_chat_server.Program.State.{
  with_out, Program, fsm_of, holding, looping, took_one, with_fsm, with_listener,
}
use tcp_udp_chat_server.Program.Sound.{wait_mail-took}
use tcp_udp_chat_server.Net.{send_data}
use tcp_udp_chat_server.MailBox.Udp.{by_udp}
use tcp_udp_chat_server.MailBox.Queue.{get_outgoing_mail}
use tcp_udp_chat_server.Mail.Types.{Mail, MessageType, bye}
use tcp_udp_chat_server.Mail.Print.{Output}
use tcp_udp_chat_server.Listener.State.{Listener, chunk}
use tcp_udp_chat_server.Listener.Loop.{handle, request_stop, retry, to_send_ready, toggle_to_send}
use tcp_udp_chat_server.Listener.Hears.{ByTcp, Hears, Quiet, handle-Hears}
use tcp_udp_chat_server.Listener.Hang.{must-eq-ok}
use tcp_udp_chat_server.Listener.Handlers.{
  await_confirm, listen_to_send_pipe, note_bye, send, send_outgoing,
}
use tcp_udp_chat_server.Listener.Fills.{Fills-refl}
use tcp_udp_chat_server.Fsm.Walks.{Walks, Walks-one, on_auth-Walks, on_open-Walks, on_start-Walks}
use tcp_udp_chat_server.Fsm.Pushes.{reply_with-SendsOne}
use tcp_udp_chat_server.Fsm.Arcs.{gives_up}
use tcp_udp_chat_server.Fsm.{Fsm, State, at_auth, at_end, at_error, at_open, at_start, reply_with}
use tcp_udp_chat_server.Common.{
  Bool, List, Option, [], arith, false, inr, none, ok, refl, some, true, ℕ, ◌++◌, ◌||◌, ◌∷◌, ◌≡◌,
  ◌≢◌,
}

abbrev pub is_bye : MessageType → Bool
is_bye bye = true
is_bye _ = false

-- Where the listener takes a mail to send it, one was there.
pub record Takes (l k : Listener) : Type 0 where
  pub first : Mail
  pub rest : List Mail
  pub queue_is : l.mailbox.outgoing_mails ≡ first ∷ rest
  pub mailbox_is : k.mailbox ≡ record l.mailbox { outgoing_mails = rest }
  pub sent_is :
      k.connection.sent ≡ l.connection.sent ++ serialize (by_udp l.connection.protocol) first ∷ []
  pub bye_is : k.sent_bye ≡ (l.sent_bye || is_bye first.type)
  pub by_tcp : ByTcp l → ByTcp k
  pub protocol_is : k.connection.protocol ≡ l.connection.protocol

send_outgoing-ByTcp :
    (l k : Listener) (b : Bool) (o : List Output)
    → ByTcp l
    → send_outgoing l ≡ ok (b, k, o)
    → ByTcp k
unfolding send_outgoing get_outgoing_mail note_bye send send_data
send_outgoing-ByTcp l k b o t e = record {
  protocol_is = ground (arith, t.protocol_is);
  connection_is = ground (arith, t.protocol_is, t.connection_is);
  none_awaited = ground (arith, t.protocol_is, t.none_awaited);
}

send_outgoing-Takes :
    (l k : Listener) (b : Bool) (o : List Output) (queue : List Mail)
    → l.mailbox.outgoing_mails ≡ queue
    → send_outgoing l ≡ ok (b, k, o)
    → Takes l k
unfolding send_outgoing get_outgoing_mail note_bye send send_data await_confirm
send_outgoing-Takes l k b o [] q e = ground arith
send_outgoing-Takes l k b o (m ∷ rest) q e = record {
  first = m;
  rest = rest;
  queue_is = q;
  mailbox_is = ground arith;
  sent_is = ground arith;
  bye_is = ground arith;
  by_tcp = λ t. send_outgoing-ByTcp l k b o t e;
  protocol_is = ground arith;
}

pub handle-Takes :
    (junk : MessageType) (byte : ℕ) (l k : Listener) (o : List Output)
    → handle junk (to_send_ready (chunk (byte ∷ []))) l [] ≡ ok (k, o)
    → Takes l k
unfolding handle listen_to_send_pipe
handle-Takes junk byte l k o h =
    let (b, p, q) = must-eq-ok (send_outgoing l) [] o k h in
    send_outgoing-Takes l k b p l.mailbox.outgoing_mails refl q

-- Mails are added to the queue of those that came, the mailbox is left alone, or the listener takes
-- one mail and sends it.
pub data Move (p q : Program) : Type 0 where
  -- `waitMail` takes the first mail.
  waits :
      (m : Mail) (l : List Mail) (o : List Output)
      → p.listener.mailbox.incoming_mails ≡ m ∷ l
      → q
        ≡ with_fsm
            (record {
              state = p.state;
              mailbox = record p.listener.mailbox { incoming_mails = l };
              mail = m;
              out = p.out ++ o;
            })
            holding
            p
      → Move p q
  -- The state machine walks an arc, with the mail that it holds or with none.
  walks :
      (g : Fsm) (got : Option Mail)
      → (p.state ≢ at_error → p.doing ≡ holding)
      → Walks got (fsm_of p) g
      → q ≡ with_fsm g looping p
      → Move p q
  listens :
      (k : Listener) (o : List Output)
      → Hears p.listener k
      → Grows p.listener.connection k.connection
      → q ≡ with_out o (with_listener k p)
      → Move p q
  takes :
      (k : Listener) (o : List Output)
      → Takes p.listener k
      → q ≡ with_out o (took_one k p)
      → Move p q

handler_in-Walks :
    (s : State) (f g : Fsm)
    → f.state ≡ s
    → waits_in s ≡ true
    → f.mail.add_to_mail_queue ≡ true
    → handler_in s f.mail.type f ≡ ok g
    → Walks (some f.mail) f g
handler_in-Walks at_start f g s w a e = on_start-Walks f.mail.type f g s refl a e
handler_in-Walks at_auth f g s w a e = on_auth-Walks f.mail.type f g s refl a e
handler_in-Walks at_open f g s w a e = on_open-Walks f.mail.type f g s refl a e
handler_in-Walks at_error f g s w a e = cc
handler_in-Walks at_end f g s w a e = cc

reply_with-Walks :
    (f g : Fsm)
    → f.state ≡ at_error
    → f.mail.add_to_mail_queue ≡ true
    → reply_with bye at_end f ≡ ok g
    → Walks none f g
reply_with-Walks f g s a e =
    Walks-one (reply_with-SendsOne bye at_end f g (inr refl) a e) (rw s gives_up)

-- A listener that keeps its mailbox, and keeps what it sent where it is by TCP.
same-Hears :
    (l k : Listener)
    → k.mailbox ≡ l.mailbox
    → k.sent_bye ≡ l.sent_bye
    → (ByTcp l → Quiet l k)
    → Hears l k
same-Hears l k same kept quiet = record {
  fills = rw same (Fills-refl l.mailbox);
  bye_is = kept;
  quiet = quiet;
}

request_stop-Hears : (l : Listener) → Hears l (request_stop l)
unfolding request_stop
request_stop-Hears l = same-Hears l (request_stop l) refl refl (λ t. record {
  by_tcp = record {
    protocol_is = t.protocol_is;
    connection_is = t.connection_is;
    none_awaited = t.none_awaited;
  };
  sent_is = refl;
})

toggle_to_send-Hears : (l : Listener) → Hears l (toggle_to_send l)
unfolding toggle_to_send
toggle_to_send-Hears l = same-Hears l (toggle_to_send l) (ground arith) (ground arith) (λ t.
    record {
      by_tcp = record {
        protocol_is = ground (arith, t.protocol_is);
        connection_is = ground (arith, t.connection_is);
        none_awaited = ground (arith, t.none_awaited);
      };
      sent_is = ground arith;
    })

-- By TCP there is no timeout.
retry-Hears : (l k : Listener) → l.received_confirm ≡ false → retry l ≡ ok k → Hears l k
unfolding retry send send_data
retry-Hears l k w e =
    same-Hears l k (ground arith) (ground arith) (λ t. absurd (ground (arith, t.none_awaited)))

request_stop-connection : (l : Listener) → (request_stop l).connection ≡ l.connection
unfolding request_stop
request_stop-connection l = refl

toggle_to_send-connection : (l : Listener) → (toggle_to_send l).connection ≡ l.connection
unfolding toggle_to_send
toggle_to_send-connection l = ground arith

pub Step-Move :
    (junk : MessageType) (p q : Program)
    → p.mail.add_to_mail_queue ≡ true
    → Step junk p q
    → Move p q
Step-Move junk p q a (main_takes m mb o d w e is) =
    let (l, first, same) = wait_mail-took p.listener.mailbox mb m o _ refl e in
    waits m l o first (rw same at is)
Step-Move junk p q a (main_handles g d w e is) =
    walks g (some p.mail) (λ _. d) (handler_in-Walks p.state (fsm_of p) g refl w a e) is
Step-Move junk p q a (main_gives_up g d s e is) =
    walks g none (λ n. absurd (n s)) (reply_with-Walks (fsm_of p) g s a e) is
Step-Move junk p q a (main_stops d s is) =
    listens (request_stop p.listener) p.out (request_stop-Hears p.listener)
      (Grows-same p.listener.connection _ (request_stop-connection p.listener)) is
Step-Move junk p q a (thread_hears e k o i h is) =
    listens k (p.out ++ o) (handle-Hears junk e p.listener k o i h)
      (handle-Grows junk e p.listener k o i h) is
Step-Move junk p q a (thread_sends byte k o u w h is) =
    takes k (p.out ++ o) (handle-Takes junk byte p.listener k o h) is
Step-Move junk p q a (thread_turns is) =
    listens (toggle_to_send p.listener) p.out (toggle_to_send-Hears p.listener)
      (Grows-same p.listener.connection _ (toggle_to_send-connection p.listener)) is
Step-Move junk p q a (thread_times_out k w e is) =
    listens k p.out (retry-Hears p.listener k w e) (retry-Grows p.listener k e) is
