-- ===== src/Listener/Waits.antt =====
-- src/listeners.cpp, Listener::runListener: over the rounds in which the awaited CONFIRM does not
-- come.
use tcp_udp_chat_server.Listener.Unconfirmed.{is_quiet, is_quiet_wake}
use tcp_udp_chat_server.Listener.StillAwaits.{ByUdp, event-StillAwaits}
use tcp_udp_chat_server.Listener.Loop.{interrupted}
use tcp_udp_chat_server.Listener.StopAndWait.{Leaves-refl, Leaves-trans}
use tcp_udp_chat_server.Listener.Grows.{handle-Grows}
use tcp_udp_chat_server.Listener.Fills.{handle-Fills, is_to_send}
use tcp_udp_chat_server.Listener.Ending.{Leaves}
use tcp_udp_chat_server.Listener.Hears.{handle-Hears}
use tcp_udp_chat_server.Listener.Hang.{retry-Leaves, run_listener, handle-nil}
use tcp_udp_chat_server.Listener.State.{Listener}
use tcp_udp_chat_server.Listener.Handlers.{send}
use tcp_udp_chat_server.Net.{send_data}
use tcp_udp_chat_server.Mail.Types.{MessageType}
use tcp_udp_chat_server.Mail.Print.{Output}
use tcp_udp_chat_server.Listener.Loop.{
  goes_on, handle_all, loop_round, retry, round_body, timed_out, toggle_to_send, handle, Event,
  Wake, events,
}
use tcp_udp_chat_server.Common.{
  Bool-cases, >>=-eq-ok, inl, inr, refl, ◌∙◌, List, [], all, arith, false, ok, true, ◌∷◌, ◌≡◌,
}

-- The wait goes on by UDP, and no mail is taken from the queue of the mails to send.
pub record KeepsWaiting (l k : Listener) : Type 0 where
  pub by_udp : ByUdp k
  pub none_confirmed : k.received_confirm ≡ false
  pub ref_is : k.ref_msg_id ≡ l.ref_msg_id
  pub mail_is : k.conf_mail ≡ l.conf_mail
  pub leaves : Leaves l k

handle-KeepsWaiting :
    (junk : MessageType) (e : Event) (l k : Listener) (out o : List Output)
    → ByUdp l
    → l.received_confirm ≡ false
    → is_quiet l.ref_msg_id e ≡ true
    → handle junk e l out ≡ ok (k, o)
    → KeepsWaiting l k
unfolding is_quiet
handle-KeepsWaiting junk e l k out o u w n h =
    let other : is_to_send e ≡ false = ground arith in
    let still = event-StillAwaits junk e l k out o u w n h in
    let (o1, plain) = handle-nil junk e l k out o h in
    record {
      by_udp = record {
        protocol_is = still.type_is ∙ u.protocol_is;
        service_is = (handle-Fills junk e l k out o other h).service_is ∙ u.service_is;
        connection_is = (handle-Grows junk e l k o1 other plain).protocol_is ∙ u.connection_is;
      };
      none_confirmed = still.confirm_is ∙ w;
      ref_is = still.ref_is;
      mail_is = still.mail_is;
      leaves = record {
        bye_is = (handle-Hears junk e l k o1 other plain).bye_is;
        queue_is = (handle-Fills junk e l k out o other h).outgoing_is;
      };
    }

KeepsWaiting-refl : (l : Listener) → ByUdp l → l.received_confirm ≡ false → KeepsWaiting l l
KeepsWaiting-refl l u w = record {
  by_udp = u;
  none_confirmed = w;
  ref_is = refl;
  mail_is = refl;
  leaves = Leaves-refl l;
}

KeepsWaiting-trans : (l m k : Listener) → KeepsWaiting l m → KeepsWaiting m k → KeepsWaiting l k
KeepsWaiting-trans l m k a b = record {
  by_udp = b.by_udp;
  none_confirmed = b.none_confirmed;
  ref_is = b.ref_is ∙ a.ref_is;
  mail_is = b.mail_is ∙ a.mail_is;
  leaves = Leaves-trans l m k a.leaves b.leaves;
}

handle_all-KeepsWaiting :
    (junk : MessageType) (es : List Event) (l k : Listener) (out o : List Output)
    → ByUdp l
    → l.received_confirm ≡ false
    → all (is_quiet l.ref_msg_id) es ≡ true
    → handle_all junk es l out ≡ ok (k, o)
    → KeepsWaiting l k
unfolding handle_all all
handle_all-KeepsWaiting junk [] l k out o u w n h =
    let same : k ≡ l = ground arith in rw same (KeepsWaiting-refl l u w)
handle_all-KeepsWaiting junk (e ∷ es) l k out o u w n h =
    let ((m, o1), p, q) = >>=-eq-ok (handle junk e l out) _ h in
    let first = handle-KeepsWaiting junk e l m out o1 u w (ground arith) p in
    KeepsWaiting-trans l m k first (
      handle_all-KeepsWaiting junk es m k o1 o first.by_udp first.none_confirmed
        (rw first.ref_is (ground arith)) q)

toggle-KeepsWaiting :
    (l : Listener) → ByUdp l → l.received_confirm ≡ false → KeepsWaiting l (toggle_to_send l)
unfolding toggle_to_send
toggle-KeepsWaiting l u w = record {
  by_udp = record {
    protocol_is = ground (arith, u.protocol_is);
    service_is = ground (arith, u.service_is);
    connection_is = ground (arith, u.connection_is);
  };
  none_confirmed = ground arith;
  ref_is = ground arith;
  mail_is = ground arith;
  leaves = record { bye_is = ground arith; queue_is = ground arith };
}

retry-KeepsWaiting :
    (l k : Listener) → ByUdp l → l.received_confirm ≡ false → retry l ≡ ok k → KeepsWaiting l k
unfolding retry send send_data
retry-KeepsWaiting l k u w e = record {
  by_udp = record {
    protocol_is = ground (arith, u.protocol_is);
    service_is = ground (arith, u.service_is);
    connection_is = ground (arith, u.connection_is);
  };
  none_confirmed = ground arith;
  ref_is = ground arith;
  mail_is = ground arith;
  leaves = retry-Leaves l k e;
}

round_body-KeepsWaiting :
    (junk : MessageType) (wake : Wake) (l k : Listener) (o : List Output)
    → ByUdp l
    → l.received_confirm ≡ false
    → is_quiet_wake l.ref_msg_id wake ≡ true
    → round_body junk wake l ≡ ok (k, o)
    → KeepsWaiting l k
unfolding is_quiet_wake
round_body-KeepsWaiting junk (events es) l k o u w n h =
    handle_all-KeepsWaiting junk es l k [] o u w n h
round_body-KeepsWaiting junk timed_out l k o u w n h =
    let (m, p, q) = >>=-eq-ok (retry l) _ h in
    let same : k ≡ m = ground arith in rw same (retry-KeepsWaiting l m u w p)
round_body-KeepsWaiting junk interrupted l k o u w n h =
    let same : k ≡ l = ground arith in rw same (KeepsWaiting-refl l u w)

-- By UDP, while a CONFIRM is awaited, over any rounds of `runListener` in which `epoll_wait` gives
-- neither the queue's descriptor nor a datagram that is read as the awaited CONFIRM: where the
-- rounds return, the CONFIRM is still awaited, of the same id and for the same mail, no mail was
-- taken from the queue of the mails to send, and sentBye stays.
pub run_listener-KeepsWaiting :
    (junk : MessageType) (ws : List Wake) (l k : Listener)
    → ByUdp l
    → l.received_confirm ≡ false
    → all (is_quiet_wake l.ref_msg_id) ws ≡ true
    → run_listener junk ws l ≡ ok k
    → KeepsWaiting l k
unfolding run_listener loop_round all
run_listener-KeepsWaiting junk [] l k u w n e =
    let same : k ≡ l = ground arith in rw same (KeepsWaiting-refl l u w)
run_listener-KeepsWaiting junk (wake ∷ ws) l k u w n e = elim (Bool-cases (goes_on l)) [
  | inl y ↦
      let ((m, o), p, q) = >>=-eq-ok (round_body junk wake (toggle_to_send l)) _ (rw y at e) in
      let first = toggle-KeepsWaiting l u w in
      let second =
        round_body-KeepsWaiting junk wake (toggle_to_send l) m o first.by_udp first.none_confirmed
          (rw first.ref_is (ground arith)) p in
      let both = KeepsWaiting-trans l (toggle_to_send l) m first second in
      KeepsWaiting-trans l m k both (
        run_listener-KeepsWaiting junk ws m k both.by_udp both.none_confirmed
          (rw both.ref_is (ground arith)) q)
  | inr stopped ↦ let same : k ≡ l = ground arith in rw same (KeepsWaiting-refl l u w)
]
