-- ===== src/Tests/Machine.antt =====
-- FSM::run on concrete mailboxes.
use tcp_udp_chat_server.Tests.Data.{auth_mail, granted_mail, ready_pipe, udp_box}
use tcp_udp_chat_server.Pipe.{write}
use tcp_udp_chat_server.MailBox.Queue.{
  announce_as, next_number, notify, number_data, send_mail, wait_mail,
}
use tcp_udp_chat_server.Mail.Types.{new_mail, msg}
use tcp_udp_chat_server.Mail.Print.{cerr}
use tcp_udp_chat_server.Fsm.Refine.{Follows, Inv, round-Follows}
use tcp_udp_chat_server.Fsm.Ends.{left_to_do, rank, run_ends}
use tcp_udp_chat_server.Fsm.{
  Fsm, at_auth, at_open, at_start, next, on_auth, on_start, round, round_in, run, send_to,
  take_mail,
}
use tcp_udp_chat_server.Common.{[], arith, codes, refl, some, ◌∷◌, ◌≡◌, ◌≢◌}

-- A state machine in START that finds the AUTH in its mailbox.
abbrev asking : Fsm
asking = record {
  state = at_start;
  mailbox = record udp_box { incoming_mails = auth_mail ∷ [] };
  mail = new_mail msg;
  out = [];
}

-- The same, one round later.
abbrev asked_once : Fsm
asked_once = record {
  state = at_auth;
  mailbox = record udp_box {
    outgoing_mails = auth_mail ∷ [];
    sequence_udp_number = 1;
    notify_listener_pipe = some (record ready_pipe { written = codes "1" });
  };
  mail = auth_mail;
  out = [];
}

asking-Inv : Inv asking
asking-Inv = record { waiting_queued = (refl, tt); current_queued = refl }

asking-round : round asking ≡ next asked_once
unfolding round_in take_mail wait_mail on_start send_to send_mail number_data next_number notify
    write
asking-round = refl

round-Follows_example : Follows asking asked_once
round-Follows_example = round-Follows asking asked_once asking-Inv asking-round

run_ends_example : run 4 asking ≢ next asked_once
unfolding left_to_do rank
run_ends_example = run_ends 4 asking asked_once asking-Inv (omega arith)

-- In AUTH, with a positive REPLY waiting.
abbrev answered : Fsm
answered = record asked_once {
  mailbox = record asked_once.mailbox { incoming_mails = granted_mail ∷ [] };
}

abbrev opened : Fsm
opened = record answered {
  state = at_open;
  mailbox = asked_once.mailbox;
  mail = granted_mail;
  out = cerr (codes "Success: Welcome\n") ∷ [];
}

answered-round : round answered ≡ next opened
unfolding round_in take_mail wait_mail announce_as on_auth
answered-round = refl
