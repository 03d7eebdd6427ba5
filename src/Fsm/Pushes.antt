-- ===== src/Fsm/Pushes.antt =====
-- What the handlers of FSM::run put into the queue of the mails to send.
use tcp_udp_chat_server.Mail.Types.{
  auth_message, join_message, error_message, bye_message, text_message, reply_message,
  confirm_message, unknown_message,
}
use tcp_udp_chat_server.Fsm.Arcs.{IsSent, is_said, own_bye, own_err, the_same, with_id}
use tcp_udp_chat_server.MailBox.State.{MailBox}
use tcp_udp_chat_server.MailBox.Queue.{number_data, send_mail}
use tcp_udp_chat_server.MailBox.Local.{write_mail_type}
use tcp_udp_chat_server.Mail.Validate.{make_error}
use tcp_udp_chat_server.Mail.Types.{MessageData, Mail, MessageType, bye, err, type_of_data}
use tcp_udp_chat_server.Fsm.{at_error, Fsm, State, reply_with, send_to}
use tcp_udp_chat_server.Common.{
  All, Option, inl, inr, some, ℕ, ◌≢◌, >>=-eq-ok, List, [], arith, minus_one, ok, refl, true, ℤ,
  ◌++◌, ◌∙◌, ◌∷◌, ◌≡◌, ◌⊎◌,
}
use tcp_udp_chat_server.MailBox.Laws.{send_mail-Sends, Sends}

-- `sendMail` was called for no mail, for the one at hand, or for one that the client makes itself.
pub data Pushed (f g : Fsm) : List Mail → Type 0 where
  unsent : g.mailbox ≡ f.mailbox → Pushed f g []
  current :
      (one : Mail)
      → f.state ≢ at_error
      → is_said f.mail.type ≡ true
      → Sends f.mail f.mailbox one g.mailbox
      → Pushed f g (one ∷ [])
  answer :
      (made one : Mail)
      → (made.type ≡ err) ⊎ (made.type ≡ bye)
      → made.type ≡ type_of_data made.payload
      → write_mail_type made.type f.mail minus_one f.mailbox ≡ ok made
      → Sends made f.mailbox one g.mailbox
      → Pushed f g (one ∷ [])

-- One mail of type `t` was sent on the way from `f` to `g`, which is in state `s`.
pub record SendsOne (t : MessageType) (s : State) (f g : Fsm) : Type 0 where
  pub one : Mail
  pub type_is : one.type ≡ t
  pub queue_is : g.mailbox.outgoing_mails ≡ f.mailbox.outgoing_mails ++ one ∷ []
  pub incoming_is : g.mailbox.incoming_mails ≡ f.mailbox.incoming_mails
  pub state_is : g.state ≡ s
  pub queued : g.mail.add_to_mail_queue ≡ true
  pub pushed : Pushed f g (one ∷ [])

-- What `sendMail(mail); state = s;` leaves.
record Sent (s : State) (f g : Fsm) : Type 0 where
  sends : Sends f.mail f.mailbox g.mail g.mailbox
  state_is : g.state ≡ s

send_to-Sent :
    (s : State) (f g : Fsm) → f.mail.add_to_mail_queue ≡ true → send_to s f ≡ ok g → Sent s f g
unfolding send_to
send_to-Sent s f g a e =
    let ((sent, mb), p, q) = >>=-eq-ok (send_mail f.mail f.mailbox) _ e in
    let same : g ≡ record f { state = s; mailbox = mb; mail = sent } = ground arith in
    rw same (record { sends = send_mail-Sends f.mail sent f.mailbox mb a p; state_is = refl })

-- The mail of a `Sends`, as one that was sent.
Sent-SendsOne :
    (t : MessageType) (s : State) (f h g : Fsm)
    → h.mailbox ≡ f.mailbox
    → h.mail.type ≡ t
    → h.mail.add_to_mail_queue ≡ true
    → Sent s h g
    → Pushed f g (g.mail ∷ [])
    → SendsOne t s f g
Sent-SendsOne t s f h g m u a n p = record {
  one = g.mail;
  type_is = ground (arith, n.sends.sent_is);
  queue_is = ground (arith, n.sends.queue_is);
  incoming_is = ground (arith, n.sends.incoming_is);
  state_is = n.state_is;
  queued = ground (arith, n.sends.sent_is);
  pushed = p;
}

pub send_to-SendsOne :
    (t : MessageType) (s : State) (f g : Fsm)
    → f.mail.type ≡ t
    → is_said t ≡ true
    → f.state ≢ at_error
    → f.mail.add_to_mail_queue ≡ true
    → send_to s f ≡ ok g
    → SendsOne t s f g
send_to-SendsOne t s f g u i d a e =
    let n = send_to-Sent s f g a e in
    Sent-SendsOne t s f f g refl u a n (current g.mail d (rw u i) n.sends)

write_mail_type-type :
    (t : MessageType) (mail m : Mail) (ref : ℤ) (mb : MailBox)
    → (t ≡ err) ⊎ (t ≡ bye)
    → write_mail_type t mail ref mb ≡ ok m
    → (m.type ≡ t)
      × (m.type ≡ type_of_data m.payload)
      × (m.add_to_mail_queue ≡ mail.add_to_mail_queue)
unfolding write_mail_type make_error type_of_data
write_mail_type-type t mail m ref mb h e = ground arith

pub reply_with-SendsOne :
    (t : MessageType) (s : State) (f g : Fsm)
    → (t ≡ err) ⊎ (t ≡ bye)
    → f.mail.add_to_mail_queue ≡ true
    → reply_with t s f ≡ ok g
    → SendsOne t s f g
unfolding reply_with
reply_with-SendsOne t s f g h a e =
    let (mail, p, q) = >>=-eq-ok (write_mail_type t f.mail minus_one f.mailbox) _ e in
    let (type_of, typed, queued) = write_mail_type-type t f.mail mail minus_one f.mailbox h p in
    let n = send_to-Sent s (record f { mail = mail }) g (queued ∙ a) q in
    Sent-SendsOne t s f (record f { mail = mail }) g refl type_of (queued ∙ a) n
      (answer mail g.mail (rw type_of h) typed (rw type_of p) n.sends)

number_data-with_id : (n : ℕ) (d : MessageData) → number_data n d ≡ with_id n d
unfolding number_data
number_data-with_id n (auth_message m) = refl
number_data-with_id n (join_message m) = refl
number_data-with_id n (error_message m) = refl
number_data-with_id n (bye_message m) = refl
number_data-with_id n (text_message m) = refl
number_data-with_id n (reply_message m) = refl
number_data-with_id n (confirm_message m) = refl
number_data-with_id n (unknown_message m) = refl

made-IsSent :
    (made mail one : Mail) (got : Option Mail) (mb : MailBox)
    → (made.type ≡ err) ⊎ (made.type ≡ bye)
    → write_mail_type made.type mail minus_one mb ≡ ok made
    → one ≡ record made { payload = with_id mb.sequence_udp_number made.payload }
    → IsSent got mb.sequence_udp_number mb.display_name one
unfolding write_mail_type make_error
made-IsSent made mail one got mb (inl e) w o =
    own_err (ground (arith, rw e at w)) (ground (arith, rw e at w))
made-IsSent made mail one got mb (inr e) w o =
    own_bye (ground (arith, rw e at w)) (ground (arith, rw e at w))

-- What a handler has sent, where it has the mail `got` at hand unless it is in ERROR.
pub Pushed-IsSent :
    (f g : Fsm) (got : Option Mail) (sent : List Mail)
    → (f.state ≢ at_error → got ≡ some f.mail)
    → Pushed f g sent
    → All (IsSent got f.mailbox.sequence_udp_number f.mailbox.display_name) sent
Pushed-IsSent f g got _ at_hand (unsent same) = tt
Pushed-IsSent f g got _ at_hand (current one d i s) = (
  the_same f.mail (at_hand d) i
      (s.sent_is ∙ rw (number_data-with_id f.mailbox.sequence_udp_number f.mail.payload) refl),
  tt,
)
Pushed-IsSent f g got _ at_hand (answer made one i t w s) = (
  made-IsSent made f.mail one got f.mailbox i w
      (s.sent_is ∙ rw (number_data-with_id f.mailbox.sequence_udp_number made.payload) refl),
  tt,
)
