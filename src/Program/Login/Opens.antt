-- ===== src/Program/Login/Opens.antt =====
-- src/main.cpp, runMain: from the AUTH that waits for its CONFIRM to the conversation, by UDP.
use tcp_udp_chat_server.Listener.Datagram.{receive_data-fits, socket-handled}
use tcp_udp_chat_server.Program.Turns.{heard-eq, round-eq, run_turns, turn-then, turns_over}
use tcp_udp_chat_server.Fsm.{round, round_in, take_mail, next}
use tcp_udp_chat_server.MailBox.Local.{write_mail_type}
use tcp_udp_chat_server.Serializer.{serialize}
use tcp_udp_chat_server.Program.Steps.{
  Reach, Step, here, later, main_handles, main_takes, thread_hears,
}
use tcp_udp_chat_server.Program.State.{
  Program, fsm_of, holding, looping, start_program, with_fsm, with_listener,
}
use tcp_udp_chat_server.Program.Login.Asks.{auth_sent, first_auth}
use tcp_udp_chat_server.Program.Login.Answers.{
  answering_turns, own_confirm, reply_read, confirm_datagram, granted_with, confirm_read,
  reply_datagram,
}
use tcp_udp_chat_server.Pipe.{Pipe}
use tcp_udp_chat_server.Net.{send_data, make_connection, packet}
use tcp_udp_chat_server.MailBox.Udp.{uint16_of}
use tcp_udp_chat_server.MailBox.Queue.{add_mail, announce_as, wait_mail}
use tcp_udp_chat_server.Mail.Validate.{is_printable, passes}
use tcp_udp_chat_server.Mail.Types.{data_message_id, data_ref_message_id, AuthMessage, MessageType}
use tcp_udp_chat_server.Mail.Print.{Output, cerr, endl}
use tcp_udp_chat_server.Listener.State.{make_listener}
use tcp_udp_chat_server.Listener.Loop.{handle, socket_ready}
use tcp_udp_chat_server.Listener.Handlers.{
  dispatch_udp, on_confirm, on_reply, send, set_srv_msg_id, receive_mail,
}
use tcp_udp_chat_server.Fsm.{at_auth, at_open, on_auth}
use tcp_udp_chat_server.Common.{
  ok, Bytes, [], arith, codes, length, length-append, minus_one, pos, refl, true, ℕ, ◌++◌, ◌∷◌, ◌≡◌,
  ◌≤◌,
}
use tcp_udp_chat_server.ArgumentParser.Parse.{Args}

module _ (junk : MessageType) (a : Args) (pipe : Pipe) (m : AuthMessage) where
  -- The CONFIRM has come, from the port `x`.
  abbrev confirmed : ℕ → Program
  confirmed x =
      let p = auth_sent junk a pipe m in
      with_listener
        (record p.listener {
          connection = record p.listener.connection { port = x };
          received_confirm = true;
          retries = 0;
          ref_msg_id = minus_one;
        })
        p

  -- The REPLY has come, from the port `y`.
  abbrev replied : ℕ → ℕ → Bytes → Program
  replied y id content =
      let p = confirmed y in
      with_listener
        (record p.listener {
          mailbox = record p.listener.mailbox {
            incoming_mails = granted_with junk id content ∷ [];
            srv_msg_id = pos id;
          };
          connection = record p.listener.connection {
            sent =
                serialize true (first_auth junk a pipe m)
                ∷ serialize true (own_confirm junk id)
                ∷ [];
          };
        })
        p

  abbrev success : Bytes → Output
  success content = cerr (codes "Success" ++ codes ": " ++ content ++ endl)

  abbrev welcomed : ℕ → ℕ → Bytes → Program
  welcomed y id content =
      let p = replied y id content in
      with_fsm
        (record {
          state = at_auth;
          mailbox = record p.listener.mailbox { incoming_mails = [] };
          mail = granted_with junk id content;
          out = success content ∷ [];
        })
        holding p

  abbrev pub conversing : ℕ → ℕ → Bytes → Program
  conversing y id content =
      let p = welcomed y id content in record p { state = at_open; doing = looping }

  confirm_handled :
      (x : ℕ)
      → handle junk
          (socket_ready (packet confirm_datagram x true))
          (auth_sent junk a pipe m).listener
          []
        ≡ ok ((confirmed x).listener, [])
  unfolding start_program make_listener make_connection receive_mail write_mail_type dispatch_udp
      on_confirm
  confirm_handled x =
      let l = (auth_sent junk a pipe m).listener in
      let event = packet confirm_datagram x true in
      let got = receive_data-fits 0 (0 ∷ 0 ∷ []) x l.connection refl (omega arith) in
      socket-handled junk event l (confirmed x).listener _ (record l.connection { port = x }) _ got
        (confirm_read junk l.mailbox _ refl) refl

  reply_handled :
      (x y hi lo : ℕ) (content : Bytes)
      → passes is_printable 1400 content ≡ true
      → length content ≤ 1017
      → handle junk
          (socket_ready (packet (reply_datagram hi lo content) y true))
          (confirmed x).listener
          []
        ≡ ok ((replied y (uint16_of hi lo) content).listener, [])
  unfolding start_program make_listener make_connection receive_mail write_mail_type dispatch_udp
      on_reply set_srv_msg_id send send_data add_mail data_message_id data_ref_message_id
  reply_handled x y hi lo content v n =
      let l = (confirmed x).listener in
      let event = packet (reply_datagram hi lo content) y true in
      let got =
        receive_data-fits 1 _ y l.connection refl
          (omega (arith, n, length-append content (0 ∷ []))) in
      socket-handled junk event l (replied y (uint16_of hi lo) content).listener _
        (record l.connection { port = y }) _ got (reply_read junk l.mailbox hi lo content _ refl v)
        refl

  opening_round :
      (y id : ℕ) (content : Bytes)
      → round (fsm_of (replied y id content)) ≡ next (fsm_of (conversing y id content))
  unfolding start_program round_in take_mail wait_mail announce_as on_auth
  opening_round y id content = refl

  welcomes : (y id : ℕ) (content : Bytes) → Step junk (replied y id content) (welcomed y id content)
  unfolding start_program wait_mail announce_as
  welcomes y id content =
      main_takes (granted_with junk id content) (welcomed y id content).listener.mailbox
        (success content ∷ []) refl refl refl refl

  converses :
      (y id : ℕ) (content : Bytes) → Step junk (welcomed y id content) (conversing y id content)
  unfolding start_program on_auth
  converses y id content = main_handles (fsm_of (conversing y id content)) refl refl refl refl

  pub conversing-Reach :
      (x y hi lo : ℕ) (content : Bytes)
      → passes is_printable 1400 content ≡ true
      → length content ≤ 1017
      → Reach junk (auth_sent junk a pipe m) (conversing y (uint16_of hi lo) content)
  unfolding start_program
  conversing-Reach x y hi lo content v n =
      let id = uint16_of hi lo in
      later
        (later
          (later
            (later here (
              thread_hears (socket_ready (packet confirm_datagram x true)) (confirmed x).listener []
                refl (confirm_handled x) refl))
            (thread_hears (socket_ready (packet (reply_datagram hi lo content) y true))
              (replied y id content).listener [] refl (reply_handled x y hi lo content v n) refl))
          (welcomes y id content))
        (converses y id content)

  pub answering_turns-conversing :
      (x y hi lo : ℕ) (content : Bytes)
      → passes is_printable 1400 content ≡ true
      → length content ≤ 1017
      → run_turns junk (answering_turns x y hi lo content) (auth_sent junk a pipe m)
        ≡ ok (conversing y (uint16_of hi lo) content)
  unfolding start_program
  answering_turns-conversing x y hi lo content v n =
      let p = auth_sent junk a pipe m in
      let q = replied y (uint16_of hi lo) content in
      let r = conversing y (uint16_of hi lo) content in
      turn-then junk _ _ p (confirmed x) (ok r)
        (heard-eq junk _ p (confirmed x).listener (confirm_handled x))
        (turn-then junk _ _ (confirmed x) q (ok r)
          (heard-eq junk _ (confirmed x) q.listener (reply_handled x y hi lo content v n))
          (turn-then junk _ _ q r (ok r)
            (round-eq junk q (fsm_of r) (opening_round y (uint16_of hi lo) content))
            (turns_over junk r)))
