-- ===== src/Fsm/Refine.antt =====
-- Each round of FSM::run is an arc of the protocol.
use mathlib.Core.Path.{subst}
use tcp_udp_chat_server.Listener.Loop.{handle}
use tcp_udp_chat_server.Fsm.Pushes.{Pushed-IsSent, reply_with-SendsOne}
use tcp_udp_chat_server.MailBox.Queue.{announce_as}
use tcp_udp_chat_server.MailBox.Laws.{wait_mail-cons, wait_mail-nil}
use tcp_udp_chat_server.Mail.Types.{Mail, MessageType, bye}
use tcp_udp_chat_server.Mail.Print.{Output}
use tcp_udp_chat_server.Fsm.Walks.{Walks, on_auth-Walks, on_open-Walks, on_start-Walks}
use tcp_udp_chat_server.Fsm.Arcs.{IsSent, Arc, gives_up}
use tcp_udp_chat_server.Fsm.{
  Fsm, State, at_auth, at_end, at_error, at_open, at_start, next, on_auth, on_open, on_start,
  reply_with, round, round_in, round_of, take_mail,
}
use tcp_udp_chat_server.Common.{
  sym, >>=-eq-ok, All, List, Option, Result, [], arith, inr, map, none, ok, refl, some, throw, true,
  ◌++◌, ◌∙◌, ◌∷◌, ◌≡◌, ◌≢◌,
}

-- The mails that wait, and the one at hand, are of those that `addMail` and `sendMail` let through.
pub record Inv (f : Fsm) : Type 0 where
  pub waiting_queued : All (λ (m : Mail). m.add_to_mail_queue ≡ true) f.mailbox.incoming_mails
  pub current_queued : f.mail.add_to_mail_queue ≡ true

-- The mail that a round takes: the first that waits, or none in ERROR.
abbrev pub got_in : State → List Mail → Option Mail
got_in at_error l = none
got_in _ [] = none
got_in _ (m ∷ l) = some m

-- The mails that wait after it.
abbrev pub left_in : State → List Mail → List Mail
left_in at_error l = l
left_in _ [] = []
left_in _ (m ∷ l) = l

got_in-cons :
    (s : State) (m : Mail) (l : List Mail)
    → s ≢ at_error
    → (got_in s (m ∷ l) ≡ some m) × (left_in s (m ∷ l) ≡ l)
got_in-cons at_error m l n = absurd (n refl)
got_in-cons _ m l n = (refl, refl)

-- A round walks an arc: it takes the mail `got` from the front of the queue, sends the mails `sent`
-- in order, of the types that the arc names and with the data that `IsSent` says, and keeps the
-- invariant.
pub record Follows (f g : Fsm) : Type 0 where
  pub sent : List Mail
  pub arc : Arc f.state (got_in f.state f.mailbox.incoming_mails) (map (λ m. m.type) sent) g.state
  pub data_are :
      All
        (IsSent
          (got_in f.state f.mailbox.incoming_mails)
          f.mailbox.sequence_udp_number
          f.mailbox.display_name)
        sent
  pub queue_is : g.mailbox.outgoing_mails ≡ f.mailbox.outgoing_mails ++ sent
  pub incoming_is : g.mailbox.incoming_mails ≡ left_in f.state f.mailbox.incoming_mails
  pub inv : Inv g

pub round_of-eq-next : (r : Result Fsm) (g : Fsm) → round_of r ≡ next g → r ≡ ok g
round_of-eq-next (ok f) g e = ground arith
round_of-eq-next (throw x) g e = cc

-- A round that takes the first mail `m`: the handler runs on the state `h` that holds it.
take_mail-eq-next :
    (handle : MessageType → Fsm → Result Fsm) (f g : Fsm) (queue : List Mail)
    → f.mailbox.incoming_mails ≡ queue
    → take_mail handle f ≡ next g
    → (m : Mail) × (l : List Mail) × (o : List Output) × (queue ≡ m ∷ l)
      × (handle m.type (record f {
        mail = m;
        mailbox = record f.mailbox { incoming_mails = l };
        out = f.out ++ o;
      })
          ≡ ok g)
unfolding take_mail
take_mail-eq-next handle f g [] q e =
    let w = wait_mail-nil f.mailbox q in cc (rw (w, take_mail) at e)
take_mail-eq-next handle f g (m ∷ l) q e =
    let w = wait_mail-cons f.mailbox m l q in
    let r = round_of-eq-next _ g (rw (w, take_mail) at e) in
    let (t, p, k) = >>=-eq-ok _ _ r in
    let (o, p', k') = >>=-eq-ok (announce_as m.type m) _ p in
    let s : t ≡ (m, record f.mailbox { incoming_mails = l }, o) = ground arith in
    (m, l, o, refl, rw s at k)

-- The state in which the handler runs.
abbrev with_mail : Fsm → Mail → List Mail → List Output → Fsm
with_mail f m l o = record f {
  mail = m;
  mailbox = record f.mailbox { incoming_mails = l };
  out = f.out ++ o;
}

Follows-Walks :
    (f g : Fsm) (m : Mail) (l : List Mail) (o : List Output)
    → f.mailbox.incoming_mails ≡ m ∷ l
    → f.state ≢ at_error
    → Inv f
    → Walks (some m) (with_mail f m l o) g
    → Follows f g
Follows-Walks f g m l o q n v w =
    let waiting : All (λ (m : Mail). m.add_to_mail_queue ≡ true) (m ∷ l) =
      rw q at v.waiting_queued in
    let (got, left) = got_in-cons f.state m l n in
    record {
      sent = w.sent;
      arc = rw (q, got) w.arc;
      data_are =
          rw (q, got) (Pushed-IsSent (with_mail f m l o) g (some m) w.sent (λ _. refl) w.pushed);
      queue_is = w.queue_is;
      incoming_is = rw (q, left) w.incoming_is;
      inv = record { waiting_queued = rw w.incoming_is waiting.1; current_queued = w.queued };
    }

-- The rounds of a state that waits for mail.
Follows-take :
    (handle : MessageType → Fsm → Result Fsm) (f g : Fsm)
    → ((t : MessageType) (h : Fsm)
        → h.state ≡ f.state
        → h.mail.type ≡ t
        → h.mail.add_to_mail_queue ≡ true
        → handle t h ≡ ok g
        → Walks (some h.mail) h g)
    → f.state ≢ at_error
    → Inv f
    → take_mail handle f ≡ next g
    → Follows f g
Follows-take handle f g step n v e =
    let (m, l, o, q, k) = take_mail-eq-next handle f g f.mailbox.incoming_mails refl e in
    let waiting : All (λ (m : Mail). m.add_to_mail_queue ≡ true) (m ∷ l) =
      subst (All (λ (m : Mail). m.add_to_mail_queue ≡ true)) q v.waiting_queued in
    Follows-Walks f g m l o q n v (step m.type (with_mail f m l o) refl refl waiting.0 k)

Follows-error :
    (f g : Fsm) → f.state ≡ at_error → Inv f → reply_with bye at_end f ≡ ok g → Follows f g
Follows-error f g s v e =
    let o = reply_with-SendsOne bye at_end f g (inr refl) v.current_queued e in
    record {
      sent = o.one ∷ [];
      arc = rw (s, o.type_is, o.state_is) gives_up;
      data_are = Pushed-IsSent f g _ (o.one ∷ []) (λ n. absurd (n s)) o.pushed;
      queue_is = o.queue_is;
      incoming_is =
          subst (λ x. g.mailbox.incoming_mails ≡ left_in x f.mailbox.incoming_mails) (sym s)
            o.incoming_is;
      inv = record {
        waiting_queued =
            subst (All (λ (m : Mail). m.add_to_mail_queue ≡ true)) (sym o.incoming_is)
              v.waiting_queued;
        current_queued = o.queued;
      };
    }

-- With the mails that wait, and the current one, all to be queued, every round that FSM::run goes
-- on from is an arc of the protocol: it takes the first mail that waits (none in ERROR), puts mails
-- of the types that the arc names at the end of the queue, each of them the mail that it took under
-- the mailbox's number, or the client's own BYE or ERR with that number, and changes the state as
-- the arc says; and the mails that wait, and the current one, are all to be queued again.
pub round-Follows : (f g : Fsm) → Inv f → round f ≡ next g → Follows f g
unfolding round_in
round-Follows f g v e = by_state f.state refl e
  where
    by_state : (s : State) → f.state ≡ s → round_in s f ≡ next g → Follows f g
    by_state at_start s =
        Follows-take on_start f g (λ t h p. on_start-Walks t h g (p ∙ s)) (λ x. cc) v
    by_state at_auth s = Follows-take on_auth f g (λ t h p. on_auth-Walks t h g (p ∙ s)) (λ x. cc) v
    by_state at_open s = Follows-take on_open f g (λ t h p. on_open-Walks t h g (p ∙ s)) (λ x. cc) v
    by_state at_error s = λ k. Follows-error f g s v (round_of-eq-next _ g k)
    by_state at_end s = λ k. cc
