-- ===== src/Program/Variants.antt =====
-- src/main.cpp, runMain: `std::get` on the mails that the threads hand to each other.
use tcp_udp_chat_server.Program.Steps.{Reach, handler_in}
use tcp_udp_chat_server.Program.State.{Doing, looping, Program, fsm_of, holding, start_program}
use tcp_udp_chat_server.Program.Numbers.{IsNumbered, Fit-IsTyped, Reach-IsNumbered}
use tcp_udp_chat_server.Pipe.{Pipe}
use tcp_udp_chat_server.MailBox.Variants.{wait_mail-GetsRight}
use tcp_udp_chat_server.MailBox.State.{udp}
use tcp_udp_chat_server.MailBox.Queue.{wait_mail}
use tcp_udp_chat_server.MailBox.Laws.{IsTyped}
use tcp_udp_chat_server.Mail.Types.{Mail, MessageType, bye}
use tcp_udp_chat_server.Listener.Variants.{handle-GetsRight, retry-GetsRight}
use tcp_udp_chat_server.Listener.Loop.{Event, handle, retry}
use tcp_udp_chat_server.Listener.Fills.{Fit}
use tcp_udp_chat_server.Fsm.Variants.{handler_in-GetsRight, reply_with-GetsRight}
use tcp_udp_chat_server.Fsm.{at_end, reply_with}
use tcp_udp_chat_server.Common.{
  inl, inr, All, List, [], bad_variant_access, eq_ℤ, false, minus_one, refl, some, throw, ◌∷◌, ◌≡◌,
  ◌≢◌, ◌⊎◌,
}
use tcp_udp_chat_server.ArgumentParser.Parse.{Args}

All-Fit-IsTyped : (mails : List Mail) → All (Fit udp) mails → All IsTyped mails
All-Fit-IsTyped [] h = tt
All-Fit-IsTyped (m ∷ rest) h = (Fit-IsTyped m h.0, All-Fit-IsTyped rest h.1)

held_right :
    (p : Program)
    → IsNumbered p
    → (p.doing ≡ looping) ⊎ (handler_in p.state p.mail.type (fsm_of p) ≢ throw bad_variant_access)
held_right p v = by_doing p.doing refl
  where
    by_doing :
        (d : Doing)
        → p.doing ≡ d
        → (p.doing ≡ looping)
          ⊎ (handler_in p.state p.mail.type (fsm_of p) ≢ throw bad_variant_access)
    by_doing looping d = inl d
    by_doing holding d =
        inr (handler_in-GetsRight p.state (fsm_of p) (Fit-IsTyped p.mail (v.held_fit d)))

-- By UDP, in every state that the program can reach from a start with a pipe that can be written
-- into and holds nothing, in any order of the steps of its threads, no `std::get` throws
-- `std::bad_variant_access`: not in `waitMail`, nor in what the state machine does, in the state
-- that it is in, with the mail that it holds, nor in what it sends in ERROR, nor in what the
-- listener does with any event or with a timeout.
pub never_bad_variant :
    (junk : MessageType) (a : Args) (pipe : Pipe) (p : Program)
    → a.type ≡ udp
    → eq_ℤ pipe.write_fd minus_one ≡ false
    → pipe.written ≡ []
    → Reach junk (start_program junk a pipe) p
    → (wait_mail p.listener.mailbox ≢ some (throw bad_variant_access))
      × ((p.doing ≡ looping)
          ⊎ (handler_in p.state p.mail.type (fsm_of p) ≢ throw bad_variant_access))
      × (reply_with bye at_end (fsm_of p) ≢ throw bad_variant_access)
      × ((e : Event) → handle junk e p.listener [] ≢ throw bad_variant_access)
      × (retry p.listener ≢ throw bad_variant_access)
never_bad_variant junk a pipe p by fd empty r =
    let v = Reach-IsNumbered junk a pipe p by fd empty r in
    (
      λ e.
          wait_mail-GetsRight p.listener.mailbox _
            (All-Fit-IsTyped p.listener.mailbox.incoming_mails v.waiting_fit) e refl,
      held_right p v,
      reply_with-GetsRight bye at_end (fsm_of p),
      λ e. handle-GetsRight junk e p.listener [] v.service_is,
      retry-GetsRight p.listener,
    )
