-- ===== src/Program/Sound.antt =====
-- What holds between any two steps of the program.
use mathlib.Core.Path.{subst}
use mathlib.Core.List.{map-append}
use tcp_udp_chat_server.Program.State.{Program, fsm_of, given_to_send, holding, looping, with_fsm}
use tcp_udp_chat_server.Pipe.{Pipe, write}
use tcp_udp_chat_server.MailBox.State.{MailBox}
use tcp_udp_chat_server.MailBox.Queue.{Taken, announce_as, notify, wait_mail}
use tcp_udp_chat_server.MailBox.Laws.{wait_mail-cons, wait_mail-nil}
use tcp_udp_chat_server.Mail.Types.{Mail, MessageType}
use tcp_udp_chat_server.Mail.Print.{Output}
use tcp_udp_chat_server.Fsm.Walks.{Walks}
use tcp_udp_chat_server.Fsm.Pushes.{Pushed, answer, current, unsent}
use tcp_udp_chat_server.Fsm.History.{Arc-Story, Story, latest}
use tcp_udp_chat_server.Fsm.{Fsm}
use tcp_udp_chat_server.Common.{
  Result, >>=-eq-ok, All, List, Option, [], ap, append_assoc, arith, codes, eq_ℤ, false, length,
  length-append, map, minus_one, ok, refl, some, suc, sym, true, ◌++◌, ◌+◌, ◌>>=◌, ◌∙◌, ◌∷◌, ◌≡◌,
}

-- The mails at hand are of those that are queued, the pipe holds one unread byte for each mail that
-- waits to be sent, and what was given to `sendMail` is the story of the state machine.
pub record IsSound (p : Program) : Type 0 where
  pub waiting_queued :
      All (λ (m : Mail). m.add_to_mail_queue ≡ true) p.listener.mailbox.incoming_mails
  pub held_queued : p.mail.add_to_mail_queue ≡ true
  pub pipe : Pipe
  pub pipe_is : p.listener.mailbox.notify_listener_pipe ≡ some pipe
  pub has_fd : eq_ℤ pipe.write_fd minus_one ≡ false
  pub told : length pipe.written ≡ p.reads + length p.listener.mailbox.outgoing_mails
  pub story : Story p.state (latest (map (λ (m : Mail). m.type) (given_to_send p)) [])

latest-append : (ts us l : List MessageType) → latest (ts ++ us) l ≡ latest us (latest ts l)
latest-append [] us l = refl
latest-append (t ∷ ts) us l = latest-append ts us (t ∷ l)

-- A byte is written for a mail that is sent.
notify-some :
    (p : Pipe) (q : Option Pipe)
    → eq_ℤ p.write_fd minus_one ≡ false
    → notify (some p) ≡ ok q
    → (r : Pipe) × (q ≡ some r)
      × (r.write_fd ≡ p.write_fd)
      × (length r.written ≡ suc (length p.written))
unfolding notify write
notify-some p q fd e =
    let r = record p { written = p.written ++ codes "1" } in
    (r, ground arith, refl, length-append p.written (codes "1") ∙ omega arith)

abbrev taking : Mail → List Mail → MailBox → Result Taken
taking n l mb = announce_as n.type n >>= λ out. ok (n, record mb { incoming_mails = l }, out)

-- The mailbox after a `waitMail` that returns.
pub wait_mail-took :
    (mb mb' : MailBox) (m : Mail) (o : List Output) (queue : List Mail)
    → mb.incoming_mails ≡ queue
    → wait_mail mb ≡ some (ok (m, mb', o))
    → (l : List Mail) × (queue ≡ m ∷ l) × (mb' ≡ record mb { incoming_mails = l })
wait_mail-took mb mb' m o [] q e = cc (wait_mail-nil mb q)
wait_mail-took mb mb' m o (n ∷ l) q e =
    let is = wait_mail-cons mb n l q in
    let k : taking n l mb ≡ ok (m, mb', o) = cc in
    let (x, _, s) = >>=-eq-ok (announce_as n.type n) _ k in (l, ground arith, ground arith)

pub waits-IsSound :
    (p : Program) (m : Mail) (l : List Mail) (o : List Output)
    → p.listener.mailbox.incoming_mails ≡ m ∷ l
    → IsSound p
    → IsSound (
        with_fsm
          (record {
            state = p.state;
            mailbox = record p.listener.mailbox { incoming_mails = l };
            mail = m;
            out = p.out ++ o;
          })
          holding
          p)
waits-IsSound p m l o first v =
    let waiting : All (λ (m : Mail). m.add_to_mail_queue ≡ true) (m ∷ l) =
      subst (All (λ (m : Mail). m.add_to_mail_queue ≡ true)) first v.waiting_queued in
    record {
      waiting_queued = waiting.1;
      held_queued = waiting.0;
      pipe = v.pipe;
      pipe_is = v.pipe_is;
      has_fd = v.has_fd;
      told = v.told;
      story = v.story;
    }

-- The pipe and the queue after the mails that a handler sends.
Pushed-told :
    (f g : Fsm) (sent : List Mail) (p : Pipe)
    → Pushed f g sent
    → f.mailbox.notify_listener_pipe ≡ some p
    → eq_ℤ p.write_fd minus_one ≡ false
    → (r : Pipe) × (g.mailbox.notify_listener_pipe ≡ some r)
      × (eq_ℤ r.write_fd minus_one ≡ false)
      × (length r.written ≡ length p.written + length sent)
Pushed-told f g _ p (unsent same) q fd = (p, rw same q, fd, omega arith)
Pushed-told f g _ p (current one d i s) q fd =
    let (r, is, w, n) = notify-some p g.mailbox.notify_listener_pipe fd (rw q at s.told) in
    (r, is, rw w fd, omega arith)
Pushed-told f g _ p (answer made one i t w s) q fd =
    let (r, is, w, n) = notify-some p g.mailbox.notify_listener_pipe fd (rw q at s.told) in
    (r, is, rw w fd, omega arith)

-- What a handler leaves, where it walks an arc of the protocol.
pub Walks-IsSound :
    (p : Program) (g : Fsm) (got : Option Mail)
    → Walks got (fsm_of p) g
    → IsSound p
    → IsSound (with_fsm g looping p)
Walks-IsSound p g got w v =
    let (r, is, fd, n) = Pushed-told (fsm_of p) g w.sent v.pipe w.pushed v.pipe_is v.has_fd in
    let more : p.taken ++ g.mailbox.outgoing_mails ≡ given_to_send p ++ w.sent =
      rw w.queue_is (sym (append_assoc p.taken p.listener.mailbox.outgoing_mails w.sent)) in
    record {
      waiting_queued =
          subst (All (λ (m : Mail). m.add_to_mail_queue ≡ true)) (sym w.incoming_is)
            v.waiting_queued;
      held_queued = w.queued;
      pipe = r;
      pipe_is = is;
      has_fd = fd;
      told = omega (
        arith,
        v.told,
        n,
        ap length w.queue_is,
        length-append p.listener.mailbox.outgoing_mails w.sent,
      );
      story = rw (more, map-append, latest-append) (Arc-Story w.arc v.story);
    }
