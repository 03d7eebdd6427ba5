-- ===== src/Fsm/History.antt =====
-- What the server sees: the types of the mails that the state machine sends, over any run, while
-- the listener puts mails into the mailbox, takes them out, and changes the display name as it
-- likes.
use tcp_udp_chat_server.Fsm.Refine.{Inv, got_in, round-Follows}
use tcp_udp_chat_server.Fsm.Arcs.{
  ignores, Arc, asks, complains, complains_start, denied, early, gives_up, granted, hears,
  interrupted, joins, leaves, says,
}
use tcp_udp_chat_server.MailBox.State.{MailBox}
use tcp_udp_chat_server.Mail.Types.{
  ReplyMessage, auth, bye, err, join, msg, reply, reply_message, Mail, MessageType,
}
use tcp_udp_chat_server.Fsm.{
  State, at_auth, at_end, at_error, at_open, at_start, make_fsm, Fsm, next, round,
}
use tcp_udp_chat_server.Common.{
  Option, arith, refl, some, sym, ◌∙◌, ◌≢◌, ◌⊎◌, All, List, [], map, true, ◌++◌, ◌∷◌, ◌≡◌,
}

-- The types of the mails that are sent, put in front of what was sent before, latest first.
abbrev pub latest : List MessageType → List MessageType → List MessageType
latest [] sent = sent
latest (t ∷ ts) sent = latest ts (t ∷ sent)

-- `Run f g sent`: from `f` to `g`, with `sent` the types of what was sent, latest first.

pub data Run (f : Fsm) : Fsm → List MessageType → Type 0 where
  idle : Run f f []
  -- the listener thread: any mailbox that `addMail` can have filled
  listener :
      {g h : Fsm} {sent : List MessageType} (mb : MailBox)
      → Run f g sent
      → All (λ (m : Mail). m.add_to_mail_queue ≡ true) mb.incoming_mails
      → h ≡ record g { mailbox = mb }
      → Run f h sent
  -- a round of `run`
  steps :
      {g h : Fsm} {sent all : List MessageType} (more : List Mail)
      → Run f g sent
      → round g ≡ next h
      → h.mailbox.outgoing_mails ≡ g.mailbox.outgoing_mails ++ more
      → all ≡ latest (map (λ m. m.type) more) sent
      → Run f h all

-- One AUTH or more, and nothing else.
pub data Asked : List MessageType → Type 0 where
  once : Asked (auth ∷ [])
  again : {l : List MessageType} → Asked l → Asked (auth ∷ l)

-- AUTHs, and then MSGs and JOINs.
pub data Talked : List MessageType → Type 0 where
  accepted : {l : List MessageType} → Asked l → Talked l
  text : {l : List MessageType} → Talked l → Talked (msg ∷ l)
  channel : {l : List MessageType} → Talked l → Talked (join ∷ l)

-- Nothing, or AUTHs, or AUTHs and then MSGs and JOINs.
pub data Live : List MessageType → Type 0 where
  silent : Live []
  asked : {l : List MessageType} → Asked l → Live l
  talked : {l : List MessageType} → Talked l → Live l

-- What has been sent in each state: one ERR at most, and one BYE at most, behind everything else.
pub data Story : State → List MessageType → Type 0 where
  fresh : Story at_start []
  asking : {l : List MessageType} → Asked l → Story at_auth l
  talking : {l : List MessageType} → Talked l → Story at_open l
  failing : {l : List MessageType} → Live l → Story at_error (err ∷ l)
  closed : {l : List MessageType} → Live l → Story at_end (bye ∷ l)
  failed : {l : List MessageType} → Live l → Story at_end (bye ∷ err ∷ l)
  dismissed : {l : List MessageType} → Talked l → Story at_end l

Story-asks :
    {s : State} {l : List MessageType}
    → Story s l
    → (s ≡ at_start) ⊎ (s ≡ at_auth)
    → Story at_auth (auth ∷ l)
Story-asks fresh h = asking once
Story-asks (asking a) h = asking (again a)
Story-asks (talking a) h = absurd (ground arith)
Story-asks (failing a) h = absurd (ground arith)
Story-asks (closed a) h = absurd (ground arith)
Story-asks (failed a) h = absurd (ground arith)
Story-asks (dismissed a) h = absurd (ground arith)

-- What is sent while the connection is up.
Story-live :
    {s : State} {l : List MessageType}
    → Story s l
    → (s ≡ at_start) ⊎ (s ≡ at_auth) ⊎ (s ≡ at_open)
    → Live l
Story-live fresh h = silent
Story-live (asking a) h = asked a
Story-live (talking a) h = talked a
Story-live (failing a) h = absurd (ground arith)
Story-live (closed a) h = absurd (ground arith)
Story-live (failed a) h = absurd (ground arith)
Story-live (dismissed a) h = absurd (ground arith)

pub Arc-Story :
    {s t : State} {got : Option Mail} {ts : List MessageType} {l : List MessageType}
    → Arc s got ts t
    → Story s l
    → Story t (latest ts l)
Arc-Story (asks m h _) y = Story-asks y h
Arc-Story (granted m r _ _ _) (asking a) = talking (accepted a)
Arc-Story (denied m r _ _ _) y = y
Arc-Story (early m h _) y = y
Arc-Story (says m t _ _ _) (talking a) = talking (text a)
Arc-Story (hears m t _ _ _) y = y
Arc-Story (ignores m _) y = y
Arc-Story (joins m _) (talking a) = talking (channel a)
Arc-Story (Arc.dismissed m _) (talking a) = Story.dismissed a
Arc-Story (interrupted m _ _) y = closed (Story-live y (ground arith))
Arc-Story (leaves m h _) y = closed (Story-live y (ground arith))
Arc-Story (complains_start m _ _ _ _) y = failing (Story-live y (ground arith))
Arc-Story (complains m h) y = failing (Story-live y (ground arith))
Arc-Story gives_up (failing a) = failed a

append_cancel : {A : Type 0} (xs ys zs : List A) → xs ++ ys ≡ xs ++ zs → ys ≡ zs
append_cancel [] ys zs e = e
append_cancel (x ∷ xs) ys zs e = append_cancel xs ys zs (ground arith)

record Told (f : Fsm) (sent : List MessageType) : Type 0 where
  story : Story f.state sent
  inv : Inv f

round-Told :
    (f g : Fsm) (sent : List MessageType) (more : List Mail)
    → Told f sent
    → round f ≡ next g
    → g.mailbox.outgoing_mails ≡ f.mailbox.outgoing_mails ++ more
    → Told g (latest (map (λ m. m.type) more) sent)
round-Told f g sent more told e q =
    let w = round-Follows f g told.inv e in
    let same : w.sent ≡ more =
      append_cancel f.mailbox.outgoing_mails w.sent more (sym w.queue_is ∙ q) in
    record { story = rw (← same) (Arc-Story w.arc told.story); inv = w.inv }

run-Told : {f g : Fsm} {sent : List MessageType} → Told f [] → Run f g sent → Told g sent
run-Told t idle = t
run-Told t (listener mb r a e) =
    let u = run-Told t r in
    rw e (record {
      story = u.story;
      inv = record { waiting_queued = a; current_queued = u.inv.current_queued };
    })
run-Told t (steps {g} {h} {sent} more r e q l) = rw l (round-Told g h sent more (run-Told t r) e q)

-- From START, with mails waiting that are all to be queued, and whatever the listener thread does
-- meanwhile, the mails sent are in every state as `Story` says: MSG and JOIN only behind an AUTH
-- and only in OPEN, one ERR at most and only before a BYE, nothing behind a BYE.
pub run-Story :
    {g : Fsm} {sent : List MessageType} (mb : MailBox) (junk : MessageType)
    → All (λ (m : Mail). m.add_to_mail_queue ≡ true) mb.incoming_mails
    → Run (make_fsm at_start mb junk) g sent
    → Story g.state sent
unfolding make_fsm
run-Story mb junk a r =
    (run-Told (record { story = fresh; inv = record { waiting_queued = a; current_queued = refl } })
      r).story

-- The mail that opens the conversation.
pub record Granted (s : State) (got : Option Mail) : Type 0 where
  pub from : s ≡ at_auth
  pub mail : Mail
  pub answer : ReplyMessage
  pub got_is : got ≡ some mail
  pub type_is : mail.type ≡ reply
  pub payload_is : mail.payload ≡ reply_message answer
  pub positive : answer.result ≡ true

Arc-Granted :
    {s t : State} {got : Option Mail} {ts : List MessageType}
    → Arc s got ts t
    → s ≢ at_open
    → t ≡ at_open
    → Granted s got
Arc-Granted (granted m r a b c) n e = record {
  from = refl;
  mail = m;
  answer = r;
  got_is = refl;
  type_is = a;
  payload_is = b;
  positive = c;
}
Arc-Granted (asks m h _) n e = absurd (ground arith)
Arc-Granted (denied m r _ _ _) n e = absurd (ground arith)
Arc-Granted (early m h _) n e = absurd (n e)
Arc-Granted (says m t _ _ _) n e = absurd (n refl)
Arc-Granted (hears m t _ _ _) n e = absurd (n refl)
Arc-Granted (ignores m _) n e = absurd (n refl)
Arc-Granted (joins m _) n e = absurd (n refl)
Arc-Granted (Arc.dismissed m _) n e = absurd (ground arith)
Arc-Granted (interrupted m _ _) n e = absurd (ground arith)
Arc-Granted (leaves m h _) n e = absurd (ground arith)
Arc-Granted (complains_start m _ _ _ _) n e = absurd (ground arith)
Arc-Granted (complains m h) n e = absurd (ground arith)
Arc-Granted gives_up n e = absurd (ground arith)

-- OPEN is entered from AUTH alone, by a round whose first waiting mail is a REPLY with a positive
-- result.
pub open_needs_reply :
    (f g : Fsm)
    → Inv f
    → round f ≡ next g
    → f.state ≢ at_open
    → g.state ≡ at_open
    → Granted f.state (got_in f.state f.mailbox.incoming_mails)
open_needs_reply f g v e n o = Arc-Granted (round-Follows f g v e).arc n o
