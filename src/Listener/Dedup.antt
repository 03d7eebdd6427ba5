-- ===== src/Listener/Dedup.antt =====
-- src/listeners.cpp, Listener::listenSocket: which mails reach the state machine by UDP.
use tcp_udp_chat_server.Fsm.History.{latest}
use tcp_udp_chat_server.Net.{send_data}
use tcp_udp_chat_server.MailBox.State.{MailBox, udp}
use tcp_udp_chat_server.MailBox.Queue.{add_mail}
use tcp_udp_chat_server.MailBox.Local.{write_mail_type}
use tcp_udp_chat_server.Mail.Types.{Mail, MessageType, get_message_id}
use tcp_udp_chat_server.Mail.Print.{Output}
use tcp_udp_chat_server.Listener.State.{Listener}
use tcp_udp_chat_server.Listener.Handlers.{
  dispatch_udp, on_confirm, on_other, on_reply, receive_mail, send, set_srv_msg_id,
}
use tcp_udp_chat_server.Common.{
  append-nil, append_assoc, refl, ◌∙◌, Bool-cases, >>=-eq-ok, Result, [], inl, inr, leb_ℤ-of_false,
  leb_ℤ-refl, leb_ℤ-trans, ℤ, ◌++◌, ◌>>=◌, ◌∷◌, ◌≤ℤ◌, Bool, List, arith, false, leb_ℤ, ok, ◌≡◌, ◌⊎◌,
}

-- What receiving a mail by UDP does to the mailbox, where it returns: nothing, or the mail's id is
-- above the latest one noted, it is noted, and the mail is passed to `addMail`.
pub receive_mail_cases :
    (junk : MessageType) (mail : Mail) (out o : List Output) (l k : Listener) (b : Bool)
    → l.protocol_type ≡ udp
    → receive_mail junk mail out l ≡ ok (b, k, o)
    → ((k.mailbox ≡ l.mailbox) × (k.protocol_type ≡ udp))
      ⊎ ((leb_ℤ (get_message_id mail) l.mailbox.srv_msg_id ≡ false)
          × (k.mailbox ≡ add_mail mail (record l.mailbox { srv_msg_id = get_message_id mail }))
          × (k.protocol_type ≡ udp))
unfolding receive_mail write_mail_type dispatch_udp on_reply on_confirm on_other send send_data
    set_srv_msg_id
receive_mail_cases junk mail out o l k b u e = ground arith

add_mail-srv : (m : Mail) (mb : MailBox) → (add_mail m mb).srv_msg_id ≡ mb.srv_msg_id
unfolding add_mail
add_mail-srv m mb = ground arith

-- A mail that comes by UDP never lowers the latest id that is noted.
receive_mail-srv :
    (junk : MessageType) (mail : Mail) (out o : List Output) (l k : Listener) (b : Bool)
    → l.protocol_type ≡ udp
    → receive_mail junk mail out l ≡ ok (b, k, o)
    → (l.mailbox.srv_msg_id ≤ℤ k.mailbox.srv_msg_id) × (k.protocol_type ≡ udp)
receive_mail-srv junk mail out o l k b u e = elim (receive_mail_cases junk mail out o l k b u e) [
  | inl (same, q) ↦ (rw same (leb_ℤ-refl l.mailbox.srv_msg_id), q)
  | inr (new, is, q) ↦
      (rw (is, add_mail-srv) (leb_ℤ-of_false (get_message_id mail) l.mailbox.srv_msg_id new), q)
]

-- The mails that `listenSocket` has read, one after another.
unfoldable pub receive_mails : MessageType → List Mail → Listener → Result Listener
receive_mails junk [] l = ok l
receive_mails junk (m ∷ ms) l = receive_mail junk m [] l >>= λ r. receive_mails junk ms r.1

-- The ids rise, each above `latest` and those before it.
pub Rising : ℤ → List Mail → Type 0
Rising latest [] = Unit
Rising latest (m ∷ ms) = (leb_ℤ (get_message_id m) latest ≡ false) × Rising (get_message_id m) ms

leb_ℤ-above : (a b c : ℤ) → a ≤ℤ b → leb_ℤ c b ≡ false → leb_ℤ c a ≡ false
leb_ℤ-above a b c low high = elim (Bool-cases (leb_ℤ c a)) [
  | inl y ↦ let still = leb_ℤ-trans c a b y low in cc
  | inr n ↦ n
]

Rising-lower : (a b : ℤ) (ms : List Mail) → a ≤ℤ b → Rising b ms → Rising a ms
unfolding Rising
Rising-lower a b [] low h = tt
Rising-lower a b (m ∷ ms) low h = (leb_ℤ-above a b (get_message_id m) low h.0, h.1)

-- `Picked got mails`: those in `got` stand in `mails`, in the same order.
pub data Picked : List Mail → List Mail → Type 0 where
  none_left : Picked [] []
  passed_over : {m : Mail} {got mails : List Mail} → Picked got mails → Picked got (m ∷ mails)
  picked : {m : Mail} {got mails : List Mail} → Picked got mails → Picked (m ∷ got) (m ∷ mails)

-- Those of some mails that reach the queue on the way from `mb` to `mb'`.
record Delivers (mails : List Mail) (mb mb' : MailBox) : Type 0 where
  got : List Mail
  queue_is : mb'.incoming_mails ≡ mb.incoming_mails ++ got
  rising : Rising mb.srv_msg_id got
  among : Picked got mails

add_mail-queue :
    (m : Mail) (mb : MailBox)
    → ((add_mail m mb).incoming_mails ≡ mb.incoming_mails ++ m ∷ [])
      ⊎ ((add_mail m mb).incoming_mails ≡ mb.incoming_mails)
unfolding add_mail
add_mail-queue m mb = ground arith

-- A mail that is noted, and then further ones.
Delivers-noted :
    (m : Mail) (mails : List Mail) (mb j k : MailBox)
    → leb_ℤ (get_message_id m) mb.srv_msg_id ≡ false
    → j ≡ add_mail m (record mb { srv_msg_id = get_message_id m })
    → Delivers mails j k
    → Delivers (m ∷ mails) mb k
unfolding Rising
Delivers-noted m mails mb j k new is d =
    let noted : j.srv_msg_id ≡ get_message_id m = rw (is, add_mail-srv) refl in
    let after : Rising (get_message_id m) d.got = rw noted at d.rising in
    elim (add_mail-queue m (record mb { srv_msg_id = get_message_id m })) [
      | inl put ↦ record {
        got = m ∷ d.got;
        queue_is = d.queue_is ∙ rw (is, put) (append_assoc mb.incoming_mails (m ∷ []) d.got);
        rising = (new, after);
        among = picked d.among;
      }
      | inr left_out ↦ record {
        got = d.got;
        queue_is = d.queue_is ∙ rw (is, left_out) refl;
        rising =
            Rising-lower mb.srv_msg_id (get_message_id m) d.got
              (leb_ℤ-of_false (get_message_id m) mb.srv_msg_id new) after;
        among = passed_over d.among;
      }
    ]

passed_on :
    (m : Mail) (mails : List Mail) (mb mb' : MailBox)
    → Delivers mails mb mb'
    → Delivers (m ∷ mails) mb mb'
passed_on m mails mb mb' d = record {
  got = d.got;
  queue_is = d.queue_is;
  rising = d.rising;
  among = passed_over d.among;
}

receive_mails-Delivers :
    (junk : MessageType) (mails : List Mail) (l k : Listener)
    → l.protocol_type ≡ udp
    → receive_mails junk mails l ≡ ok k
    → Delivers mails l.mailbox k.mailbox
unfolding receive_mails Rising
receive_mails-Delivers junk [] l k u e =
    let same : k ≡ l = ground arith in
    record { got = []; queue_is = rw (same, append-nil) refl; rising = tt; among = none_left }
receive_mails-Delivers junk (m ∷ ms) l k u e =
    let ((b, j, o), p, q) = >>=-eq-ok (receive_mail junk m [] l) _ e in
    elim (receive_mail_cases junk m [] o l j b u p) [
      | inl (same, v) ↦
          rw (← same) (passed_on m ms j.mailbox k.mailbox (receive_mails-Delivers junk ms j k v q))
      | inr (new, is, v) ↦
          Delivers-noted m ms l.mailbox j.mailbox k.mailbox new is
            (receive_mails-Delivers junk ms j k v q)
    ]

-- By UDP, where receiving some mails returns: what is put into the queue, behind those that stand
-- in it, are mails among them, in the order in which they came, and their ids rise, the first one
-- above the latest id noted before, and each above the one before it. So no id is delivered twice,
-- and a mail that comes behind a delivered one with a higher id is not delivered at all.
pub delivered_once :
    (junk : MessageType) (mails : List Mail) (l k : Listener)
    → l.protocol_type ≡ udp
    → receive_mails junk mails l ≡ ok k
    → (got : List Mail) × (k.mailbox.incoming_mails ≡ l.mailbox.incoming_mails ++ got)
      × Picked got mails
      × Rising l.mailbox.srv_msg_id got
delivered_once junk mails l k u e =
    let d = receive_mails-Delivers junk mails l k u e in (d.got, d.queue_is, d.among, d.rising)
