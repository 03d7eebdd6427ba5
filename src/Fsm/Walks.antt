-- ===== src/Fsm/Walks.antt =====
-- How the handlers of FSM::run walk the arcs of the protocol.
use tcp_udp_chat_server.Fsm.Pushes.{Pushed, SendsOne, unsent, reply_with-SendsOne, send_to-SendsOne}
use tcp_udp_chat_server.Fsm.Arcs.{
  ignores, complains, denied, dismissed, early, granted, hears, joins, leaves, says, Arc, asks,
  complains_start, interrupted,
}
use tcp_udp_chat_server.MailBox.Queue.{get_reply, get_text}
use tcp_udp_chat_server.Mail.Types.{
  confirm, reply, reply_message, text_message, unknown, auth, join, msg, Mail, MessageType, bye,
  err,
}
use tcp_udp_chat_server.Fsm.{
  at_open, on_auth, on_open, at_auth, at_end, at_error, at_start, on_start, Fsm, State,
}
use tcp_udp_chat_server.Common.{
  map, Bool-cases, List, Option, append-nil, arith, inl, inr, refl, some, >>=-eq-ok, [], ok, true,
  ◌++◌, ◌∷◌, ◌≡◌,
}

-- From `f` to `g` the arc of the mail `got` is walked: what it sends stands at the end of the
-- queue.
pub record Walks (got : Option Mail) (f g : Fsm) : Type 0 where
  pub sent : List Mail
  pub arc : Arc f.state got (map (λ m. m.type) sent) g.state
  pub queue_is : g.mailbox.outgoing_mails ≡ f.mailbox.outgoing_mails ++ sent
  pub incoming_is : g.mailbox.incoming_mails ≡ f.mailbox.incoming_mails
  pub queued : g.mail.add_to_mail_queue ≡ true
  pub pushed : Pushed f g sent

-- The arc of one mail of type `t` that leads to state `s`.
pub Walks-one :
    {t : MessageType} {s : State} {got : Option Mail} {f g : Fsm}
    → SendsOne t s f g
    → Arc f.state got (t ∷ []) s
    → Walks got f g
Walks-one o a = record {
  sent = o.one ∷ [];
  arc = rw (o.type_is, o.state_is) a;
  queue_is = o.queue_is;
  incoming_is = o.incoming_is;
  queued = o.queued;
  pushed = o.pushed;
}

-- The arc of no mail, where the mailbox stays.
Walks-none :
    {got : Option Mail} (f g : Fsm)
    → g.mailbox ≡ f.mailbox
    → g.mail.add_to_mail_queue ≡ true
    → Arc f.state got [] g.state
    → Walks got f g
Walks-none f g e q a = record {
  sent = [];
  arc = a;
  queue_is = rw (e, append-nil);
  incoming_is = rw e;
  queued = q;
  pushed = unsent e;
}

pub on_start-Walks :
    (t : MessageType) (f g : Fsm)
    → f.state ≡ at_start
    → f.mail.type ≡ t
    → f.mail.add_to_mail_queue ≡ true
    → on_start t f ≡ ok g
    → Walks (some f.mail) f g
unfolding on_start
on_start-Walks auth f g s t a e =
    Walks-one (send_to-SendsOne auth at_auth f g t refl (ground arith) a e)
      (rw s (asks f.mail (inl refl) t))
on_start-Walks err f g s t a e = elim (Bool-cases f.mail.sigint) [
  | inl y ↦
      Walks-one (reply_with-SendsOne bye at_end f g (inr refl) a (ground arith))
        (rw s (interrupted f.mail t y))
  | inr n ↦
      Walks-one (reply_with-SendsOne err at_error f g (inl refl) a (ground arith))
        (rw s (complains_start f.mail (ground arith) (ground arith) (ground arith) (λ _. n)))
]
on_start-Walks msg f g s t a e =
    let stays : g.state ≡ f.state = ground arith in
    Walks-none f g (ground arith) (ground arith) (rw stays (early f.mail (inl s) (inl t)))
on_start-Walks join f g s t a e =
    let stays : g.state ≡ f.state = ground arith in
    Walks-none f g (ground arith) (ground arith) (rw stays (early f.mail (inl s) (inr t)))
on_start-Walks _ f g s t a e =
    Walks-one (reply_with-SendsOne err at_error f g (inl refl) a e)
      (rw s (complains_start f.mail (ground arith) (ground arith) (ground arith) (ground arith)))

pub on_auth-Walks :
    (t : MessageType) (f g : Fsm)
    → f.state ≡ at_auth
    → f.mail.type ≡ t
    → f.mail.add_to_mail_queue ≡ true
    → on_auth t f ≡ ok g
    → Walks (some f.mail) f g
unfolding on_auth
on_auth-Walks reply f g s t a e =
    let (r, p, q) = >>=-eq-ok (get_reply f.mail.payload) _ e in
    let here : f.mail.payload ≡ reply_message r = ground arith in
    elim (Bool-cases r.result) [
      | inl y ↦
          let there : g.state ≡ at_open = ground arith in
          Walks-none f g (ground arith) (ground arith) (rw (s, there) (granted f.mail r t here y))
      | inr n ↦
          let there : g.state ≡ at_auth = ground arith in
          Walks-none f g (ground arith) (ground arith) (rw (s, there) (denied f.mail r t here n))
    ]
on_auth-Walks auth f g s t a e =
    Walks-one (send_to-SendsOne auth at_auth f g t refl (ground arith) a e)
      (rw s (asks f.mail (inr refl) t))
on_auth-Walks err f g s t a e =
    Walks-one (reply_with-SendsOne bye at_end f g (inr refl) a e) (leaves f.mail (inl s) t)
on_auth-Walks msg f g s t a e =
    let stays : g.state ≡ f.state = ground arith in
    Walks-none f g (ground arith) (ground arith) (rw stays (early f.mail (inr s) (inl t)))
on_auth-Walks join f g s t a e =
    let stays : g.state ≡ f.state = ground arith in
    Walks-none f g (ground arith) (ground arith) (rw stays (early f.mail (inr s) (inr t)))
on_auth-Walks bye f g s t a e =
    Walks-one (reply_with-SendsOne err at_error f g (inl refl) a e) (complains f.mail (inl (s, t)))
on_auth-Walks confirm f g s t a e =
    Walks-one (reply_with-SendsOne err at_error f g (inl refl) a e)
      (complains f.mail (inr (inl s, inl t)))
on_auth-Walks unknown f g s t a e =
    Walks-one (reply_with-SendsOne err at_error f g (inl refl) a e)
      (complains f.mail (inr (inl s, inr t)))

pub on_open-Walks :
    (t : MessageType) (f g : Fsm)
    → f.state ≡ at_open
    → f.mail.type ≡ t
    → f.mail.add_to_mail_queue ≡ true
    → on_open t f ≡ ok g
    → Walks (some f.mail) f g
unfolding on_open
on_open-Walks msg f g s t a e =
    let (m, p, q) = >>=-eq-ok (get_text f.mail.payload) _ e in
    let here : f.mail.payload ≡ text_message m = ground arith in
    elim (Bool-cases m.to_send) [
      | inl y ↦
          Walks-one (send_to-SendsOne msg f.state f g t refl (ground arith) a (rw y at q))
            (rw s (says f.mail m t here y))
      | inr n ↦
          let there : g.state ≡ at_open = ground arith in
          Walks-none f g (ground arith) (ground arith) (rw (s, there) (hears f.mail m t here n))
    ]
on_open-Walks reply f g s t a e =
    let there : g.state ≡ at_open = ground arith in
    Walks-none f g (ground arith) (ground arith) (rw (s, there) (ignores f.mail (inl t)))
on_open-Walks auth f g s t a e =
    let there : g.state ≡ at_open = ground arith in
    Walks-none f g (ground arith) (ground arith) (rw (s, there) (ignores f.mail (inr t)))
on_open-Walks err f g s t a e =
    Walks-one (reply_with-SendsOne bye at_end f g (inr refl) a e) (leaves f.mail (inr s) t)
on_open-Walks bye f g s t a e =
    let there : g.state ≡ at_end = ground arith in
    Walks-none f g (ground arith) (ground arith) (rw (s, there) (dismissed f.mail t))
on_open-Walks join f g s t a e =
    Walks-one (send_to-SendsOne join at_open f g t refl (ground arith) a e) (rw s (joins f.mail t))
on_open-Walks confirm f g s t a e =
    Walks-one (reply_with-SendsOne err at_error f g (inl refl) a e)
      (complains f.mail (inr (inr s, inl t)))
on_open-Walks unknown f g s t a e =
    Walks-one (reply_with-SendsOne err at_error f g (inl refl) a e)
      (complains f.mail (inr (inr s, inr t)))
