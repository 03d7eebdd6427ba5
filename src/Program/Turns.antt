-- ===== src/Program/Turns.antt =====
-- src/main.cpp, runMain: the two threads as a program that can be run, by turns that are given.
use tcp_udp_chat_server.Fsm.{failed, next, returned, waiting}
use tcp_udp_chat_server.Program.State.{
  with_out, Program, fsm_of, looping, took_one, with_fsm, with_listener,
}
use tcp_udp_chat_server.Mail.Types.{MessageType}
use tcp_udp_chat_server.Listener.State.{Listener}
use tcp_udp_chat_server.Listener.Loop.{Event, handle, to_send_ready}
use tcp_udp_chat_server.Fsm.{Fsm, Round, returned, round}
use tcp_udp_chat_server.Common.{
  ap, append-nil, ◌∙◌, >>=-eq-ok, ◌++◌, List, Result, [], ok, refl, throw, ◌>>=◌, ◌∷◌, ◌≡◌,
}

-- A round of `FSM::run`, or an event that the listener handles.
pub data Turn : Type 0 where
  main_round : Turn
  listener_event : Event → Turn

-- The listener after an event. A byte that announces a mail is counted, and the mail noted.
abbrev pub heard_by : Event → Listener → Program → Program
heard_by (to_send_ready r) k p = took_one k p
heard_by _ k p = with_listener k p

-- The program after a round of its main thread.
abbrev pub rounded : Program → Round → Result Program
rounded p (next g) = ok (with_fsm g looping p)
rounded p (returned g) = ok p
rounded p waiting = ok p
rounded p (failed problem) = throw problem

unfoldable pub turn : MessageType → Turn → Program → Result Program
turn junk main_round p = rounded p (round (fsm_of p))
turn junk (listener_event e) p =
    handle junk e p.listener [] >>= λ r. ok (with_out (p.out ++ r.1) (heard_by e r.0 p))

unfoldable pub run_turns : MessageType → List Turn → Program → Result Program
run_turns junk [] p = ok p
run_turns junk (t ∷ ts) p = turn junk t p >>= run_turns junk ts

with_out-nil :
    (e : Event) (k : Listener) (p : Program) → with_out p.out (heard_by e k p) ≡ heard_by e k p
with_out-nil (to_send_ready r) k p = refl
with_out-nil _ k p = refl

-- An event of which nothing is printed.
pub heard-eq :
    (junk : MessageType) (e : Event) (p : Program) (k : Listener)
    → handle junk e p.listener [] ≡ ok (k, [])
    → turn junk (listener_event e) p ≡ ok (heard_by e k p)
unfolding turn
heard-eq junk e p k h =
    rw h
      (ap (λ o. ok (with_out o (heard_by e k p))) (append-nil p.out) ∙ ap ok (with_out-nil e k p))

pub round-eq :
    (junk : MessageType) (p : Program) (g : Fsm)
    → round (fsm_of p) ≡ next g
    → turn junk main_round p ≡ ok (with_fsm g looping p)
unfolding turn
round-eq junk p g h = rw h refl

pub turn-then :
    (junk : MessageType) (t : Turn) (ts : List Turn) (p q : Program) (r : Result Program)
    → turn junk t p ≡ ok q
    → run_turns junk ts q ≡ r
    → run_turns junk (t ∷ ts) p ≡ r
unfolding run_turns
turn-then junk t ts p q r h rest = rw h rest

pub turns_over : (junk : MessageType) (p : Program) → run_turns junk [] p ≡ ok p
unfolding run_turns
turns_over junk p = refl

pub turns-append :
    (junk : MessageType) (ts us : List Turn) (p q : Program) (r : Result Program)
    → run_turns junk ts p ≡ ok q
    → run_turns junk us q ≡ r
    → run_turns junk (ts ++ us) p ≡ r
unfolding run_turns
turns-append junk [] us p q r first rest = cc
turns-append junk (t ∷ ts) us p q r first rest =
    let (k, one, others) = >>=-eq-ok (turn junk t p) _ first in
    turn-then junk t (ts ++ us) p k r one (turns-append junk ts us k q r others rest)
