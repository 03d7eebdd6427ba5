-- ===== src/Tests/Thread.antt =====
-- The listener thread on concrete arrivals and rounds.
use tcp_udp_chat_server.MailBox.Wire.{write_mail_buffer}
use tcp_udp_chat_server.MailBox.Udp.{read_body, read_char, read_uint16, uint16_of, write_udp_mail}
use tcp_udp_chat_server.StopWatch.{StopWatch}
use tcp_udp_chat_server.Listener.Clock.{events_every, events_put_off_retry, next_timeout}
use tcp_udp_chat_server.Net.Arrays.{receive_data_overflows_iff}
use tcp_udp_chat_server.Listener.Loop.{
  request_stop, Wake, events, handle, handle_all, socket_ready, goes_on, interrupted, loop_round,
  toggle_to_send,
}
use tcp_udp_chat_server.Listener.Hang.{run_listener, stop_hangs}
use tcp_udp_chat_server.Listener.Confirm.{SameWait, receive_mail_waits}
use tcp_udp_chat_server.Tests.Data.{
  confirm_mail, heard_mail, udp_box, udp_listener, waiting_listener,
}
use tcp_udp_chat_server.Serializer.{serialize, serialize_data, serialize_uint16}
use tcp_udp_chat_server.Net.{
  copy_into_array, follow_port, receive_udp, packet, receive_data, send_data,
}
use tcp_udp_chat_server.MailBox.State.{udp}
use tcp_udp_chat_server.MailBox.Queue.{add_mail}
use tcp_udp_chat_server.MailBox.Local.{write_mail_type}
use tcp_udp_chat_server.Mail.Types.{
  Mail, type_of_code, confirm, data_message_id, get_message_id, msg, type_code,
}
use tcp_udp_chat_server.Listener.State.{Listener}
use tcp_udp_chat_server.Listener.Retry.{Waits, awaited, timeouts, timeouts_resend}
use tcp_udp_chat_server.Listener.Handlers.{
  listen_socket, note_failure, on_confirm, dispatch_udp, on_other, receive_mail, send,
  set_srv_msg_id,
}
use tcp_udp_chat_server.Listener.Dedup.{Picked, Rising, receive_mails, delivered_once}
use tcp_udp_chat_server.Listener.Copies.{taken_in, repeated_mail}
use tcp_udp_chat_server.Common.{
  List, Bytes, length, minus_one, out_of_bounds, ◌-◌, ◌<◌, ◌↔◌, [], arith, false, ok, pos, refl,
  replicate, throw, to_uint16, true, ◌++◌, ◌+◌, ◌∷◌, ◌≡◌, ◌⊎◌,
}

waiting-Waits : Waits 3 waiting_listener
waiting-Waits = record { waiting = refl; limit_is = refl; can_send = refl }

timeouts_resend_example :
    (k : Listener) × (timeouts msg 2 waiting_listener ≡ ok k)
    × (k.retries ≡ waiting_listener.retries + 2)
    × (k.connection.sent
        ≡ waiting_listener.connection.sent ++ replicate 2 (awaited waiting_listener))
    × Waits 3 k
timeouts_resend_example = timeouts_resend msg 2 3 waiting_listener waiting-Waits (omega arith)

-- The listener that has heard message 5.
abbrev heard_listener : Listener
heard_listener = record udp_listener {
  mailbox = record udp_box { incoming_mails = heard_mail 5 ∷ []; srv_msg_id = pos 5 };
  connection = record udp_listener.connection { sent = (0 ∷ 0 ∷ 5 ∷ []) ∷ [] };
}

hear : receive_mail msg (heard_mail 5) [] udp_listener ≡ ok (true, heard_listener, [])
unfolding receive_mail write_mail_type dispatch_udp on_other send send_data set_srv_msg_id add_mail
    serialize serialize_data serialize_uint16 type_code to_uint16 data_message_id
hear = refl

-- A message comes twice, and then one with a lower id.
abbrev heard_again : List Mail
heard_again = heard_mail 6 ∷ heard_mail 6 ∷ heard_mail 3 ∷ []

heard_again-received :
    receive_mails msg heard_again heard_listener ≡ ok (taken_in msg (heard_mail 6) heard_listener)
unfolding receive_mails receive_mail write_mail_type dispatch_udp on_other data_message_id send
    send_data set_srv_msg_id add_mail
heard_again-received = refl

delivered_once_example :
    (got : List Mail) × ((taken_in msg (heard_mail 6) heard_listener).mailbox.incoming_mails
      ≡ heard_listener.mailbox.incoming_mails ++ got)
    × Picked got heard_again
    × Rising heard_listener.mailbox.srv_msg_id got
delivered_once_example =
    delivered_once msg heard_again heard_listener (taken_in msg (heard_mail 6) heard_listener) refl
      heard_again-received

-- The listener whose AUTH is confirmed.
abbrev confirmed_listener : Listener
confirmed_listener = record waiting_listener {
  received_confirm = true;
  retries = 0;
  ref_msg_id = minus_one;
}

confirmed :
    receive_mail msg (confirm_mail 0) [] waiting_listener ≡ ok (true, confirmed_listener, [])
unfolding receive_mail write_mail_type dispatch_udp on_confirm
confirmed = refl

receive_mail_waits_example :
    (((confirm_mail 0).type ≡ confirm)
      × (get_message_id (confirm_mail 0) ≡ pos 0)
      × (confirmed_listener.received_confirm ≡ true)
      × (confirmed_listener.retries ≡ 0)
      × (confirmed_listener.ref_msg_id ≡ minus_one))
    ⊎ SameWait waiting_listener confirmed_listener
receive_mail_waits_example =
    receive_mail_waits msg (confirm_mail 0) [] [] waiting_listener confirmed_listener true refl refl
      confirmed

-- A message comes three times.
repeated_mail_example :
    receive_mails msg (heard_mail 6 ∷ replicate 2 (heard_mail 6)) heard_listener
    ≡ ok (taken_in msg (heard_mail 6) heard_listener)
unfolding data_message_id
repeated_mail_example =
    repeated_mail msg (heard_mail 6) 2 heard_listener refl refl refl refl (λ e. cc) (λ e. cc) refl

-- The same, once `stop` was called.
abbrev stopping : Listener
stopping = record heard_listener { keep_running = false }

heard_bye : run_listener msg (interrupted ∷ []) (request_stop heard_listener) ≡ ok stopping
unfolding run_listener loop_round toggle_to_send goes_on request_stop
heard_bye = refl

stop_hangs_example : goes_on stopping ≡ true
stop_hangs_example =
    stop_hangs msg (interrupted ∷ []) heard_listener stopping
      (record { not_sent = refl; none_waits = tt }) heard_bye

-- A datagram of 1201 bytes.
abbrev long_packet : Bytes
long_packet = replicate 1200 97

receive_data_overflows_iff_example :
    (receive_data (packet (4 ∷ long_packet) 4567 true) udp_listener.connection
      ≡ throw out_of_bounds)
    ↔ ((udp_listener.connection.protocol ≡ udp) × (1024 < length (4 ∷ long_packet)))
receive_data_overflows_iff_example =
    receive_data_overflows_iff 4 long_packet 4567 true udp_listener.connection

abbrev watch : StopWatch
watch = record { start_time = 0; end_time = 0; is_stopped = false }

-- Ten events, one every 100 ms, against a timeout of 250 ms.
events_put_off_retry_example :
    (next_timeout waiting_listener 1000 (events_every 10 100 0 watch) ≡ pos (250 - 100))
    × (100 < 250 - 100)
events_put_off_retry_example =
    events_put_off_retry waiting_listener 250 9 100 0 1000 watch refl refl (omega arith)

-- While the AUTH waits for its CONFIRM, the CONFIRM of another message comes in.
abbrev pub stray_confirm : Wake
stray_confirm = events (socket_ready (packet (0 ∷ 0 ∷ 7 ∷ []) 4567 true) ∷ [])

abbrev pub unwatched : Listener
unwatched = record waiting_listener { to_send_registered = false }

pub stray_round : loop_round msg stray_confirm waiting_listener ≡ ok (unwatched, [])
unfolding loop_round toggle_to_send handle_all handle listen_socket receive_data receive_udp
    follow_port copy_into_array write_mail_buffer write_udp_mail read_char read_body read_uint16
    uint16_of type_of_code note_failure receive_mail write_mail_type dispatch_udp on_confirm
stray_round = refl
