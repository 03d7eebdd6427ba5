-- ===== src/Program/Numbers.antt =====
-- src/headers/mail-box.h, MailBox::sendMail: the numbers of the mails that are sent by UDP.
use mathlib.Core.Path.{subst}
use tcp_udp_chat_server.Program.Steps.{Reach}
use tcp_udp_chat_server.Program.Moves.{Move, Takes, listens, takes, waits, walks}
use tcp_udp_chat_server.Program.Keeps.{Reach-keeps, start_program-IsSound, took_one-given}
use tcp_udp_chat_server.Listener.State.{Listener}
use tcp_udp_chat_server.Listener.Fills.{Fills, Fit}
use tcp_udp_chat_server.Fsm.Walks.{Walks}
use tcp_udp_chat_server.Fsm.Arcs.{is_said}
use tcp_udp_chat_server.Fsm.Pushes.{Pushed, answer, current, unsent}
use tcp_udp_chat_server.Program.Sound.{IsSound}
use tcp_udp_chat_server.Pipe.{Pipe}
use tcp_udp_chat_server.Mail.Print.{Output}
use tcp_udp_chat_server.ArgumentParser.Parse.{Args}
use tcp_udp_chat_server.Program.State.{
  with_out, start_program, Program, fsm_of, given_to_send, holding, looping, took_one, with_fsm,
  with_listener,
}
use tcp_udp_chat_server.MailBox.State.{MailBox, udp}
use tcp_udp_chat_server.MailBox.Queue.{is_numbered, next_number, number_data}
use tcp_udp_chat_server.MailBox.Laws.{IsTyped, Sends}
use tcp_udp_chat_server.Mail.Types.{
  MessageData, MessageType, data_message_id, Mail, bye, err, get_message_id, type_of_data,
}
use tcp_udp_chat_server.Fsm.{Fsm, at_error}
use tcp_udp_chat_server.Common.{
  eq_ℤ, false, minus_one, ap, All, All-append, List, Option, [], append_assoc, arith, inl, inr,
  length, length-append, pos, refl, suc, sym, true, u16_mod, ℕ, ◌%◌, ◌++◌, ◌+◌, ◌∙◌, ◌∷◌, ◌≡◌, ◌≢◌,
  ◌⊎◌,
}

-- The ids count up from `n`, and wrap as a `uint16_t` does.
abbrev pub Numbered : ℕ → List Mail → Type 0
Numbered n [] = Unit
Numbered n (m ∷ rest) = (get_message_id m ≡ pos (n % u16_mod)) × Numbered (suc n) rest

Numbered-append :
    (n : ℕ) (xs ys : List Mail)
    → Numbered n xs
    → Numbered (n + length xs) ys
    → Numbered n (xs ++ ys)
Numbered-append n [] ys h k = subst (λ i. Numbered i ys) (omega arith) k
Numbered-append n (x ∷ xs) ys h k =
    (h.0, Numbered-append (suc n) xs ys h.1 (subst (λ i. Numbered i ys) (omega arith) k))

pub Numbered-front : (n : ℕ) (xs ys : List Mail) → Numbered n (xs ++ ys) → Numbered n xs
Numbered-front n [] ys h = tt
Numbered-front n (x ∷ xs) ys h = (h.0, Numbered-front (suc n) xs ys h.1)

-- The mailbox delivers by UDP, the mails at hand have the types of their data, and what was given
-- to `sendMail` is numbered.
pub record IsNumbered (p : Program) : Type 0 where
  pub service_is : p.listener.mailbox.delivery_service ≡ udp
  pub waiting_fit : All (Fit udp) p.listener.mailbox.incoming_mails
  pub held_fit : p.doing ≡ holding → Fit udp p.mail
  pub numbered : Numbered 0 (given_to_send p)
  pub number_is : p.listener.mailbox.sequence_udp_number ≡ length (given_to_send p) % u16_mod

numbered_id :
    (n : ℕ) (d : MessageData)
    → is_numbered d ≡ true
    → (data_message_id (number_data n d) ≡ pos n) × (next_number d n ≡ (n + 1) % u16_mod)
unfolding is_numbered number_data next_number data_message_id
numbered_id n d i = ground arith

-- The one mail of a `sendMail` that numbers it.
Sends-Numbered :
    (n : ℕ) (mail sent : Mail) (mb mb' : MailBox)
    → is_numbered mail.payload ≡ true
    → mb.sequence_udp_number ≡ n % u16_mod
    → Sends mail mb sent mb'
    → Numbered n (sent ∷ []) × (mb'.sequence_udp_number ≡ (n + 1) % u16_mod)
Sends-Numbered n mail sent mb mb' i k s =
    let (id, next) = numbered_id mb.sequence_udp_number mail.payload i in
    ((rw s.sent_is (id ∙ ap pos k), tt), s.number_is ∙ next ∙ rw k (omega arith))

is_numbered_said : (m : Mail) → is_said m.type ≡ true → IsTyped m → is_numbered m.payload ≡ true
unfolding is_numbered type_of_data
is_numbered_said m i t = ground arith

is_numbered_answer :
    (m : Mail)
    → (m.type ≡ err) ⊎ (m.type ≡ bye)
    → m.type ≡ type_of_data m.payload
    → is_numbered m.payload ≡ true
unfolding is_numbered type_of_data
is_numbered_answer m i t = ground arith

pub Fit-IsTyped : (m : Mail) → Fit udp m → IsTyped m
Fit-IsTyped m (inl e) = cc
Fit-IsTyped m (inr t) = t

Pushed-Numbered :
    (f g : Fsm) (sent : List Mail) (n : ℕ)
    → Pushed f g sent
    → (f.state ≢ at_error → Fit udp f.mail)
    → f.mailbox.sequence_udp_number ≡ n % u16_mod
    → Numbered n sent
      × (g.mailbox.sequence_udp_number ≡ (n + length sent) % u16_mod)
      × (g.mailbox.delivery_service ≡ f.mailbox.delivery_service)
Pushed-Numbered f g _ n (unsent same) fits k = (tt, rw same (k ∙ omega arith), rw same refl)
Pushed-Numbered f g _ n (current one d i s) fits k =
    let numbered = is_numbered_said f.mail i (Fit-IsTyped f.mail (fits d)) in
    let (a, b) = Sends-Numbered n f.mail one f.mailbox g.mailbox numbered k s in
    (a, b, s.service_is)
Pushed-Numbered f g _ n (answer made one i t w s) fits k =
    let (a, b) = Sends-Numbered n made one f.mailbox g.mailbox (is_numbered_answer made i t) k s in
    (a, b, s.service_is)

Walks-IsNumbered :
    (p : Program) (g : Fsm) (got : Option Mail)
    → Walks got (fsm_of p) g
    → (p.state ≢ at_error → Fit udp p.mail)
    → IsNumbered p
    → IsNumbered (with_fsm g looping p)
Walks-IsNumbered p g got w fits v =
    let (new, number, service) =
      Pushed-Numbered (fsm_of p) g w.sent (length (given_to_send p)) w.pushed fits v.number_is in
    let more : p.taken ++ g.mailbox.outgoing_mails ≡ given_to_send p ++ w.sent =
      rw w.queue_is (sym (append_assoc p.taken p.listener.mailbox.outgoing_mails w.sent)) in
    record {
      service_is = service ∙ v.service_is;
      waiting_fit = subst (All (Fit udp)) (sym w.incoming_is) v.waiting_fit;
      held_fit = λ d. cc;
      numbered = rw more (
          Numbered-append 0 (given_to_send p) w.sent v.numbered
            (subst (λ i. Numbered i w.sent) (omega arith) new));
      number_is =
          number
          ∙ sym (ap (λ l. l % u16_mod) (ap length more ∙ length-append (given_to_send p) w.sent));
    }

start_program-IsNumbered :
    (junk : MessageType) (a : Args) (pipe : Pipe)
    → a.type ≡ udp
    → IsNumbered (start_program junk a pipe)
unfolding start_program
start_program-IsNumbered junk a pipe by = record {
  service_is = by;
  waiting_fit = tt;
  held_fit = λ d. cc;
  numbered = tt;
  number_is = refl;
}

waits-IsNumbered :
    (p : Program) (m : Mail) (l : List Mail) (o : List Output)
    → p.listener.mailbox.incoming_mails ≡ m ∷ l
    → IsNumbered p
    → IsNumbered (
        with_fsm
          (record {
            state = p.state;
            mailbox = record p.listener.mailbox { incoming_mails = l };
            mail = m;
            out = p.out ++ o;
          })
          holding
          p)
waits-IsNumbered p m l o first v =
    let fit : All (Fit udp) (m ∷ l) = subst (All (Fit udp)) first v.waiting_fit in
    record {
      service_is = v.service_is;
      waiting_fit = fit.1;
      held_fit = λ _. fit.0;
      numbered = v.numbered;
      number_is = v.number_is;
    }

Fills-IsNumbered :
    (p : Program) (k : Listener) (o : List Output)
    → Fills p.listener.mailbox k.mailbox
    → IsNumbered p
    → IsNumbered (with_out o (with_listener k p))
Fills-IsNumbered p k o f v = record {
  service_is = f.service_is ∙ v.service_is;
  waiting_fit = subst (All (Fit udp)) (sym f.incoming_is) (
      All-append _ p.listener.mailbox.incoming_mails f.added v.waiting_fit
        (rw v.service_is at f.all_fit));
  held_fit = v.held_fit;
  numbered = rw f.outgoing_is v.numbered;
  number_is = f.number_is ∙ rw f.outgoing_is v.number_is;
}

Takes-IsNumbered :
    (p : Program) (k : Listener) (o : List Output)
    → Takes p.listener k
    → IsNumbered p
    → IsNumbered (with_out o (took_one k p))
Takes-IsNumbered p k o t v = record {
  service_is = rw t.mailbox_is v.service_is;
  waiting_fit = rw t.mailbox_is v.waiting_fit;
  held_fit = v.held_fit;
  numbered = rw (took_one-given p k t) v.numbered;
  number_is = rw (took_one-given p k t) (rw t.mailbox_is v.number_is);
}

Move-IsNumbered : (p q : Program) → Move p q → IsSound p → IsNumbered p → IsNumbered q
Move-IsNumbered p q (waits m l o first is) _ v = rw is (waits-IsNumbered p m l o first v)
Move-IsNumbered p q (walks g got d w is) _ v =
    rw is (Walks-IsNumbered p g got w (λ n. v.held_fit (d n)) v)
Move-IsNumbered p q (listens k o h g is) _ v = rw is (Fills-IsNumbered p k o h.fills v)
Move-IsNumbered p q (takes k o t is) _ v = rw is (Takes-IsNumbered p k o t v)

-- The invariant, in every state that the program can reach.
pub Reach-IsNumbered :
    (junk : MessageType) (a : Args) (pipe : Pipe) (p : Program)
    → a.type ≡ udp
    → eq_ℤ pipe.write_fd minus_one ≡ false
    → pipe.written ≡ []
    → Reach junk (start_program junk a pipe) p
    → IsNumbered p
Reach-IsNumbered junk a pipe p by fd empty r =
    Reach-keeps junk _ p Move-IsNumbered r (start_program-IsSound junk a pipe fd empty)
      (start_program-IsNumbered junk a pipe by)

-- By UDP, in every state that the program can reach from a start with a pipe that can be written
-- into and holds nothing, in any order of the steps of its threads: the mails that were given to
-- `sendMail`, those that were taken from the queue first, have the ids 0, 1, 2 and so on. Behind
-- 65535 comes 0 again.
pub program-Numbered :
    (junk : MessageType) (a : Args) (pipe : Pipe) (p : Program)
    → a.type ≡ udp
    → eq_ℤ pipe.write_fd minus_one ≡ false
    → pipe.written ≡ []
    → Reach junk (start_program junk a pipe) p
    → Numbered 0 (given_to_send p)
program-Numbered junk a pipe p by fd empty r =
    (Reach-IsNumbered junk a pipe p by fd empty r).numbered
