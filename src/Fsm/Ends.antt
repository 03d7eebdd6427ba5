-- ===== src/Fsm/Ends.antt =====
-- FSM::run comes to an end: every round takes a mail or gets nearer to END.

use tcp_udp_chat_server.Mail.Types.{Mail, MessageType}
use tcp_udp_chat_server.Fsm.Refine.{round-Follows, Inv, got_in, left_in, Follows}
use tcp_udp_chat_server.Fsm.Arcs.{
  asks, complains, complains_start, denied, dismissed, early, gives_up, granted, hears, ignores,
  interrupted, joins, leaves, says, Arc,
}
use tcp_udp_chat_server.Fsm.{
  Round, failed, next, returned, round, run, waiting, Fsm, State, at_end, at_error,
}
use tcp_udp_chat_server.Common.{arith, refl, suc, zero, ◌≡◌, ◌≢◌, List, Option, length, ℕ, ◌+◌, ◌<◌}

unfoldable pub rank : State → ℕ
rank at_error = 1
rank at_end = 0
rank _ = 2

-- What is left to do if no further mail comes in.
unfoldable pub left_to_do : Fsm → ℕ
unfolding rank
left_to_do f = length f.mailbox.incoming_mails + rank f.state

Arc-left :
    {s t : State} {got : Option Mail} {sent : List MessageType} (l : List Mail)
    → Arc s got sent t
    → got ≡ got_in s l
    → length (left_in s l) + rank t < length l + rank s
unfolding rank
Arc-left l (asks m h _) e = ground arith
Arc-left l (granted m r _ _ _) e = ground arith
Arc-left l (denied m r _ _ _) e = ground arith
Arc-left l (early m h _) e = ground arith
Arc-left l (says m t _ _ _) e = ground arith
Arc-left l (hears m t _ _ _) e = ground arith
Arc-left l (ignores m _) e = ground arith
Arc-left l (joins m _) e = ground arith
Arc-left l (dismissed m _) e = ground arith
Arc-left l (interrupted m _ _) e = ground arith
Arc-left l (leaves m h _) e = ground arith
Arc-left l (complains_start m _ _ _ _) e = ground arith
Arc-left l (complains m h) e = ground arith
Arc-left l gives_up e = ground arith

round-left_to_do : (f g : Fsm) → Follows f g → left_to_do g < left_to_do f
unfolding left_to_do
round-left_to_do f g w = let h = Arc-left f.mailbox.incoming_mails w.arc refl in rw w.incoming_is h

run-round :
    (fuel : ℕ) (f g : Fsm) (r : Round)
    → round f ≡ r
    → ((k : Fsm) → r ≡ next k → run fuel k ≢ next g)
    → run (suc fuel) f ≢ next g
unfolding run
run-round fuel f g (next k) e rest = rw (e, run) (rest k refl)
run-round fuel f g (returned k) e rest = rw (e, run) (λ x. cc)
run-round fuel f g waiting e rest = rw (e, run) (λ x. cc)
run-round fuel f g (failed x) e rest = rw (e, run) (λ y. cc)

-- With the mails that wait, and no others, all of them and the current one to be queued, FSM::run
-- does not go on for ever: where the fuel is more than the number of waiting mails and the rank of
-- the state (2, in ERROR 1, in END 0), it returns, waits for mail, or fails by an exception.
pub run_ends : (fuel : ℕ) (f g : Fsm) → Inv f → left_to_do f < fuel → run fuel f ≢ next g
run_ends zero f g v h = absurd (omega arith)
run_ends (suc fuel) f g v h = run-round fuel f g (round f) refl λ k e.
    let w = round-Follows f k v e in run_ends fuel k g w.inv (omega (arith, round-left_to_do f k w))
