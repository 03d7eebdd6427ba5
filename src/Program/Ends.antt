-- ===== src/Program/Ends.antt =====
-- src/main.cpp, runMain with src/listeners.cpp, Listener::stop and Listener::runListener: whether
-- the thread that `stop` joins can end.
use tcp_udp_chat_server.ArgumentParser.Ranges.{given}
use tcp_udp_chat_server.Program.Wire.{Move-IsWired, start_program-IsWired}
use tcp_udp_chat_server.MailBox.State.{tcp}
use tcp_udp_chat_server.Listener.State.{make_listener}
use tcp_udp_chat_server.Fsm.Arcs.{
  Arc, asks, complains, complains_start, denied, dismissed, early, gives_up, granted, hears,
  ignores, interrupted, joins, leaves, says,
}
use tcp_udp_chat_server.Program.Steps.{Reach}
use tcp_udp_chat_server.Program.State.{Program, first_of, given_to_send, start_program}
use tcp_udp_chat_server.Program.Sound.{IsSound}
use tcp_udp_chat_server.Program.Moves.{Move, is_bye, listens, takes, waits, walks}
use tcp_udp_chat_server.Program.Keeps.{
  Reach-IsSound, Reach-keeps, start_program-IsSound, took_one-given,
}
use tcp_udp_chat_server.Pipe.{Pipe}
use tcp_udp_chat_server.Mail.Types.{Mail, MessageType}
use tcp_udp_chat_server.Listener.Loop.{goes_on}
use tcp_udp_chat_server.Fsm.{State, at_end}
use tcp_udp_chat_server.Common.{
  Option, ap, inl, inr, ◌≢◌, Bool, List, [], arith, eq_ℤ, false, minus_one, not, refl, true, ◌++◌,
  ◌||◌, ◌∙◌, ◌∷◌, ◌≡◌,
}
use tcp_udp_chat_server.ArgumentParser.Parse.{Args}

abbrev pub has_bye : List Mail → Bool
has_bye [] = false
has_bye (m ∷ rest) = is_bye m.type || has_bye rest

-- `sentBye` is set just where a BYE was taken from the queue.
IsHeard : Program → Type 0
IsHeard p = p.listener.sent_bye ≡ has_bye p.taken

has_bye-append : (xs ys : List Mail) → has_bye (xs ++ ys) ≡ (has_bye xs || has_bye ys)
has_bye-append [] ys = refl
has_bye-append (x ∷ xs) ys = let rest = has_bye-append xs ys in ground arith

has_no_bye-start : (xs ys : List Mail) → has_bye (xs ++ ys) ≡ false → has_bye xs ≡ false
has_no_bye-start xs ys e = let both = has_bye-append xs ys in ground arith

Move-IsHeard : (p q : Program) → Move p q → IsSound p → IsHeard p → IsHeard q
unfolding IsHeard
Move-IsHeard p q (waits m l o first is) _ v = rw is v
Move-IsHeard p q (walks g got d w is) _ v = rw is v
Move-IsHeard p q (listens k o h g is) _ v = rw is (h.bye_is ∙ v)
Move-IsHeard p q (takes k o t is) _ v =
    let more : has_bye (p.taken ++ first_of p.listener.mailbox.outgoing_mails)
        ≡ (has_bye p.taken || is_bye t.first.type) =
      rw (t.queue_is, has_bye-append) (ground arith) in
    rw is (t.bye_is ∙ rw (more, v) refl)

-- Behind the end of the state machine nothing is given to `sendMail`.
record IsOver (given : List Mail) (p : Program) : Type 0 where
  state_is : p.state ≡ at_end
  given_is : given_to_send p ≡ given

-- No arc begins at the end.
Arc-alive : {s t : State} {got : Option Mail} {ts : List MessageType} → Arc s got ts t → s ≢ at_end
Arc-alive (asks m a b) e = ground arith
Arc-alive (granted m r a b c) e = ground arith
Arc-alive (denied m r a b c) e = ground arith
Arc-alive (early m a b) e = ground arith
Arc-alive (says m t a b c) e = ground arith
Arc-alive (hears m t _ _ _) e = ground arith
Arc-alive (ignores m a) e = ground arith
Arc-alive (joins m a) e = ground arith
Arc-alive (dismissed m a) e = ground arith
Arc-alive (interrupted m a b) e = ground arith
Arc-alive (leaves m a b) e = ground arith
Arc-alive (complains_start m a b c d) e = ground arith
Arc-alive (complains m (inl a)) e = ground arith
Arc-alive (complains m (inr a)) e = ground arith
Arc-alive gives_up e = ground arith

Move-IsOver :
    (given : List Mail) (p q : Program) → Move p q → IsSound p → IsOver given p → IsOver given q
Move-IsOver given p q (waits m l o first is) _ v =
    rw is (record { state_is = v.state_is; given_is = v.given_is })
Move-IsOver given p q (walks g got d w is) _ v = absurd (Arc-alive w.arc v.state_is)
Move-IsOver given p q (listens k o h g is) _ v =
    rw is (record { state_is = v.state_is; given_is = rw h.fills.outgoing_is v.given_is })
Move-IsOver given p q (takes k o t is) _ v =
    rw is (record { state_is = v.state_is; given_is = took_one-given p k t ∙ v.given_is })

start_program-IsHeard :
    (junk : MessageType) (a : Args) (pipe : Pipe) → IsHeard (start_program junk a pipe)
unfolding IsHeard start_program make_listener
start_program-IsHeard junk a pipe = refl

-- By TCP, in every state that the program can reach from a start with a pipe that can be written
-- into and holds nothing, in any order of the steps of its threads: once the listener is told to
-- stop, its loop goes on exactly as long as no BYE was taken from the queue.
pub program_tcp-goes_on :
    (junk : MessageType) (a : Args) (pipe : Pipe) (p : Program)
    → a.type ≡ tcp
    → eq_ℤ pipe.write_fd minus_one ≡ false
    → pipe.written ≡ []
    → Reach junk (start_program junk a pipe) p
    → p.listener.keep_running ≡ false
    → goes_on p.listener ≡ not (has_bye p.taken)
unfolding goes_on IsHeard
program_tcp-goes_on junk a pipe p by fd empty r stopped =
    let sound = start_program-IsSound junk a pipe fd empty in
    let heard = Reach-keeps junk _ p Move-IsHeard r sound (start_program-IsHeard junk a pipe) in
    let wired = Reach-keeps junk _ p Move-IsWired r sound (start_program-IsWired junk a pipe by) in
    rw (stopped, wired.by_tcp.none_awaited, heard) (ground arith)

-- In a run from a start with a pipe that can be written into and holds nothing, in any order of
-- the steps of its threads: once the state machine has ended, and no BYE is among the mails that
-- were given to `sendMail`, as where the server's BYE ended it, the condition of the listener's
-- loop holds in every state that follows, after `stop` too, so that the thread that `stop` joins
-- does not end.
pub stop_never_returns :
    (junk : MessageType) (a : Args) (pipe : Pipe) (p q : Program)
    → eq_ℤ pipe.write_fd minus_one ≡ false
    → pipe.written ≡ []
    → Reach junk (start_program junk a pipe) p
    → p.state ≡ at_end
    → has_bye (given_to_send p) ≡ false
    → Reach junk p q
    → goes_on q.listener ≡ true
unfolding goes_on IsHeard
stop_never_returns junk a pipe p q fd empty r over none_given s =
    let sound = Reach-IsSound junk _ p r (start_program-IsSound junk a pipe fd empty) in
    let end =
      Reach-keeps junk p q (Move-IsOver (given_to_send p)) s sound
        (record { state_is = over; given_is = refl }) in
    let heard = Reach-keeps junk p q Move-IsHeard s sound (
      Reach-keeps junk _ p Move-IsHeard r (start_program-IsSound junk a pipe fd empty)
        (start_program-IsHeard junk a pipe)) in
    let none_taken : has_bye q.taken ≡ false =
      has_no_bye-start q.taken q.listener.mailbox.outgoing_mails
        (ap has_bye end.given_is ∙ none_given) in
    rw (heard, none_taken) (ground arith)
