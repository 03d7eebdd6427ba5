-- ===== src/Program/Keeps.antt =====
-- Every step of the program keeps `IsSound`.
use mathlib.Core.Path.{subst}
use tcp_udp_chat_server.Mail.Print.{Output}
use tcp_udp_chat_server.Program.Steps.{Reach, here, later}
use tcp_udp_chat_server.Program.State.{
  with_out, Program, given_to_send, start_program, took_one, with_listener,
}
use tcp_udp_chat_server.Program.Sound.{IsSound, Walks-IsSound, waits-IsSound}
use tcp_udp_chat_server.Program.Moves.{Move, Step-Move, Takes, listens, takes, waits, walks}
use tcp_udp_chat_server.Pipe.{Pipe}
use tcp_udp_chat_server.Mail.Types.{Mail, MessageType}
use tcp_udp_chat_server.Listener.State.{Listener}
use tcp_udp_chat_server.Listener.Fills.{Fills}
use tcp_udp_chat_server.Fsm.History.{fresh}
use tcp_udp_chat_server.Common.{
  List, All, All-append, [], ap, append_assoc, arith, eq_ℤ, false, length, minus_one, refl, sym,
  true, ◌∙◌, ◌∷◌, ◌≡◌,
}
use tcp_udp_chat_server.ArgumentParser.Parse.{Args}

-- The listener adds mails, and leaves the queue of the mails to send and the pipe alone.
Fills-IsSound :
    (p : Program) (k : Listener) (o : List Output)
    → Fills p.listener.mailbox k.mailbox
    → IsSound p
    → IsSound (with_out o (with_listener k p))
Fills-IsSound p k o f v = record {
  waiting_queued =
      subst (All (λ (m : Mail). m.add_to_mail_queue ≡ true)) (sym f.incoming_is)
        (All-append _ p.listener.mailbox.incoming_mails f.added v.waiting_queued f.all_queued);
  held_queued = v.held_queued;
  pipe = v.pipe;
  pipe_is = f.pipe_is ∙ v.pipe_is;
  has_fd = v.has_fd;
  told = rw f.outgoing_is v.told;
  story = rw f.outgoing_is v.story;
}

-- What was given to `sendMail` stays when one mail of it is taken.
pub took_one-given :
    (p : Program) (k : Listener)
    → Takes p.listener k
    → given_to_send (took_one k p) ≡ given_to_send p
took_one-given p k t = rw (t.mailbox_is, t.queue_is) (append_assoc p.taken (t.first ∷ []) t.rest)

Takes-IsSound :
    (p : Program) (k : Listener) (o : List Output)
    → Takes p.listener k
    → IsSound p
    → IsSound (with_out o (took_one k p))
Takes-IsSound p k o t v = record {
  waiting_queued = rw t.mailbox_is v.waiting_queued;
  held_queued = v.held_queued;
  pipe = v.pipe;
  pipe_is = rw t.mailbox_is v.pipe_is;
  has_fd = v.has_fd;
  told = rw t.mailbox_is (omega (arith, v.told, ap length t.queue_is));
  story = rw (took_one-given p k t) v.story;
}

Move-IsSound : (p q : Program) → Move p q → IsSound p → IsSound q
Move-IsSound p q (waits m l o first is) v = rw is (waits-IsSound p m l o first v)
Move-IsSound p q (walks g got d w is) v = rw is (Walks-IsSound p g got w v)
Move-IsSound p q (listens k o h g is) v = rw is (Fills-IsSound p k o h.fills v)
Move-IsSound p q (takes k o t is) v = rw is (Takes-IsSound p k o t v)

pub start_program-IsSound :
    (junk : MessageType) (a : Args) (pipe : Pipe)
    → eq_ℤ pipe.write_fd minus_one ≡ false
    → pipe.written ≡ []
    → IsSound (start_program junk a pipe)
unfolding start_program
start_program-IsSound junk a pipe fd empty = record {
  waiting_queued = tt;
  held_queued = refl;
  pipe = pipe;
  pipe_is = refl;
  has_fd = fd;
  told = ap length empty;
  story = fresh;
}

pub Reach-IsSound : (junk : MessageType) (p q : Program) → Reach junk p q → IsSound p → IsSound q
Reach-IsSound junk p q here v = v
Reach-IsSound junk p q (later {q = m} r s) v =
    let sound = Reach-IsSound junk p m r v in
    Move-IsSound m q (Step-Move junk m q sound.held_queued s) sound

-- What every move keeps holds in all that the program can reach.
pub Reach-keeps {ℓ} :
    {P : Program → Type ℓ}
    → (junk : MessageType) (p q : Program) → ((r s : Program) → Move r s → IsSound r → P r → P s)
    → Reach junk p q
    → IsSound p
    → P p
    → P q
Reach-keeps junk p q keeps here v h = h
Reach-keeps junk p q keeps (later {q = m} r s) v h =
    let sound = Reach-IsSound junk p m r v in
    keeps m q (Step-Move junk m q sound.held_queued s) sound (Reach-keeps junk p m keeps r v h)
