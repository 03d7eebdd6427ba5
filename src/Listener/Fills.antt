-- ===== src/Listener/Fills.antt =====
-- What the listener thread does to the mailbox, but for the mails that it takes to send them: it
-- appends mails, and changes the display name and the latest id of the server.
use tcp_udp_chat_server.Net.{Arrival, receive_data}
use tcp_udp_chat_server.MailBox.Wire.{write_mail_buffer}
use tcp_udp_chat_server.MailBox.Typed.{write_mail_buffer-IsTyped, write_mail_line-IsTyped}
use tcp_udp_chat_server.MailBox.State.{MailBox, ProtocolType, tcp, udp}
use tcp_udp_chat_server.MailBox.Queue.{add_mail}
use tcp_udp_chat_server.MailBox.Local.{write_mail_type}
use tcp_udp_chat_server.MailBox.Laws.{IsTyped}
use tcp_udp_chat_server.MailBox.Commands.{write_mail_line}
use tcp_udp_chat_server.Mail.Validate.{make_error}
use tcp_udp_chat_server.Mail.Types.{Mail, MessageType, err, get_message_id, new_mail, type_of_data}
use tcp_udp_chat_server.Mail.Print.{Output}
use tcp_udp_chat_server.Listener.State.{Listener, PipeRead, at_eof, broken, chunk, try_again}
use tcp_udp_chat_server.Listener.Loop.{
  Event, handle, signal_ready, socket_ready, stdin_ready, stray, to_send_ready, unknown_ready,
}
use tcp_udp_chat_server.Listener.Lines.{complete_lines, enter_lines, listen_stdin-enter_lines}
use tcp_udp_chat_server.Listener.Hang.{must-eq-ok}
use tcp_udp_chat_server.Listener.Handlers.{
  stdin_room, listen_signal, listen_socket, listen_stdin, note_failure, receive_mail, signal_end,
}
use tcp_udp_chat_server.Listener.Dedup.{receive_mail_cases}
use tcp_udp_chat_server.Common.{
  take, >>=-eq-ok, All, All-append, Bool, Bool-cases, Bytes, List, [], append-nil, append_assoc,
  arith, failed_to_receive, false, guard, inl, inr, minus_one, ok, refl, sym, true, ℤ, ◌++◌, ◌∙◌,
  ◌∷◌, ◌≡◌, ◌⊎◌,
}

-- A mail that has the type of its data, unless the mailbox delivers by TCP.
abbrev pub Fit : ProtocolType → Mail → Type 0
Fit service m = (service ≡ tcp) ⊎ IsTyped m

pub record Fills (mb mb' : MailBox) : Type 0 where
  pub added : List Mail
  pub incoming_is : mb'.incoming_mails ≡ mb.incoming_mails ++ added
  pub all_queued : All (λ (m : Mail). m.add_to_mail_queue ≡ true) added
  pub all_fit : All (Fit mb.delivery_service) added
  pub outgoing_is : mb'.outgoing_mails ≡ mb.outgoing_mails
  pub pipe_is : mb'.notify_listener_pipe ≡ mb.notify_listener_pipe
  pub number_is : mb'.sequence_udp_number ≡ mb.sequence_udp_number
  pub service_is : mb'.delivery_service ≡ mb.delivery_service

pub Fills-refl : (mb : MailBox) → Fills mb mb
Fills-refl mb = record {
  added = [];
  incoming_is = sym (append-nil mb.incoming_mails);
  all_queued = tt;
  all_fit = tt;
  outgoing_is = refl;
  pipe_is = refl;
  number_is = refl;
  service_is = refl;
}

pub Fills-trans : (a b c : MailBox) → Fills a b → Fills b c → Fills a c
Fills-trans a b c f g = record {
  added = f.added ++ g.added;
  incoming_is = g.incoming_is ∙ rw f.incoming_is (append_assoc a.incoming_mails f.added g.added);
  all_queued = All-append _ f.added g.added f.all_queued g.all_queued;
  all_fit = All-append _ f.added g.added f.all_fit (rw f.service_is at g.all_fit);
  outgoing_is = g.outgoing_is ∙ f.outgoing_is;
  pipe_is = g.pipe_is ∙ f.pipe_is;
  number_is = g.number_is ∙ f.number_is;
  service_is = g.service_is ∙ f.service_is;
}

add_mail_queued :
    (m : Mail) (mb : MailBox)
    → m.add_to_mail_queue ≡ true
    → add_mail m mb ≡ record mb { incoming_mails = mb.incoming_mails ++ m ∷ [] }
unfolding add_mail
add_mail_queued m mb y = ground arith

add_mail_dropped : (m : Mail) (mb : MailBox) → m.add_to_mail_queue ≡ false → add_mail m mb ≡ mb
unfolding add_mail
add_mail_dropped m mb n = ground arith

-- `addMail` of a mail that fits, if it is to be queued.
add_mail-Fills :
    (m : Mail) (mb : MailBox)
    → (m.add_to_mail_queue ≡ true → Fit mb.delivery_service m)
    → Fills mb (add_mail m mb)
add_mail-Fills m mb fits = elim (Bool-cases m.add_to_mail_queue) [
  | inl y ↦ rw (add_mail_queued m mb y) (record {
    added = m ∷ [];
    incoming_is = refl;
    all_queued = (y, tt);
    all_fit = (fits y, tt);
    outgoing_is = refl;
    pipe_is = refl;
    number_is = refl;
    service_is = refl;
  })
  | inr n ↦ rw (add_mail_dropped m mb n) (Fills-refl mb)
]

-- A change of the name and of the latest id.
same-Fills :
    (mb mb' : MailBox)
    → mb' ≡ record mb { display_name = mb'.display_name; srv_msg_id = mb'.srv_msg_id }
    → Fills mb mb'
same-Fills mb mb' e = rw e (record {
  added = [];
  incoming_is = sym (append-nil mb.incoming_mails);
  all_queued = tt;
  all_fit = tt;
  outgoing_is = refl;
  pipe_is = refl;
  number_is = refl;
  service_is = refl;
})

write_mail_line-Fills :
    (line : Bytes) (mail m : Mail) (mb mb' : MailBox) (o : List Output)
    → write_mail_line line mail mb ≡ ok (m, mb', o)
    → Fills mb mb'
unfolding write_mail_line
write_mail_line-Fills line mail m mb mb' o e = same-Fills mb mb' (ground arith)

enter_lines-Fills :
    (junk : MessageType) (lines : List Bytes) (mb mb' : MailBox) (out o : List Output)
    → enter_lines junk lines mb out ≡ ok (mb', o)
    → Fills mb mb'
unfolding enter_lines
enter_lines-Fills junk [] mb mb' out o e =
    let same : mb' ≡ mb = ground arith in rw same (Fills-refl mb)
enter_lines-Fills junk (line ∷ lines) mb mb' out o e =
    let ((m, mb1, o1), p, q) = >>=-eq-ok (write_mail_line line (new_mail junk) mb) _ e in
    let typed = write_mail_line-IsTyped line (new_mail junk) m mb mb1 o1 p in
    Fills-trans mb mb1 mb' (write_mail_line-Fills line (new_mail junk) m mb mb1 o1 p) (
      Fills-trans mb1 (add_mail m mb1) mb' (add_mail-Fills m mb1 (λ y. inr (typed y)))
        (enter_lines-Fills junk lines (add_mail m mb1) mb' (out ++ o1) o q))

listen_stdin-Fills :
    (junk : MessageType) (r : PipeRead) (l k : Listener) (b : Bool) (o : List Output)
    → listen_stdin junk r l ≡ ok (b, k, o)
    → Fills l.mailbox k.mailbox
listen_stdin-Fills junk (chunk bytes) l k b o e =
    let ((mb, o1), p, q) =
      >>=-eq-ok (enter_lines junk (complete_lines (take stdin_room bytes) []) l.mailbox []) _
        (rw listen_stdin-enter_lines at e) in
    let same : k.mailbox ≡ mb = ground arith in
    rw same
      (enter_lines-Fills junk (complete_lines (take stdin_room bytes) []) l.mailbox mb [] o1 p)
listen_stdin-Fills junk try_again l k b o e =
    let same : k ≡ l = unfold listen_stdin in ground arith in rw same (Fills-refl l.mailbox)
listen_stdin-Fills junk broken l k b o e = unfold listen_stdin in cc
listen_stdin-Fills junk at_eof l k b o e =
    let same : k ≡ l = unfold listen_stdin in ground arith in rw same (Fills-refl l.mailbox)

tcp_mailbox :
    (junk : MessageType) (mail : Mail) (out o : List Output) (l k : Listener) (b : Bool)
    → l.protocol_type ≡ tcp
    → receive_mail junk mail out l ≡ ok (b, k, o)
    → k.mailbox ≡ add_mail mail l.mailbox
unfolding receive_mail
tcp_mailbox junk mail out o l k b s e = ground arith

receive_mail-Fills :
    (junk : MessageType) (mail : Mail) (out o : List Output) (l k : Listener) (b : Bool)
    → Fit l.mailbox.delivery_service mail
    → receive_mail junk mail out l ≡ ok (b, k, o)
    → Fills l.mailbox k.mailbox
receive_mail-Fills junk mail out o l k b fits e = by_protocol l.protocol_type refl
  where
    by_protocol : (s : ProtocolType) → l.protocol_type ≡ s → Fills l.mailbox k.mailbox
    by_protocol udp s = elim (receive_mail_cases junk mail out o l k b s e) [
      | inl (same, _) ↦ rw same (Fills-refl l.mailbox)
      | inr (new, is, _) ↦
          let noted = record l.mailbox { srv_msg_id = get_message_id mail } in
          rw is (
            Fills-trans l.mailbox noted (add_mail mail noted) (same-Fills l.mailbox noted refl)
              (add_mail-Fills mail noted (λ y. fits)))
    ]
    by_protocol tcp s =
        let is : k.mailbox ≡ add_mail mail l.mailbox = tcp_mailbox junk mail out o l k b s e in
        rw is (add_mail-Fills mail l.mailbox (λ y. fits))

note_failure-mailbox :
    (b : Bool) (out : List Output) (l : Listener) → (note_failure b out l).1.mailbox ≡ l.mailbox
unfolding note_failure
note_failure-mailbox true out l = refl
note_failure-mailbox false out l = refl

listen_socket-Fills :
    (junk : MessageType) (a : Arrival) (l k : Listener) (b : Bool) (o : List Output)
    → listen_socket junk a l ≡ ok (b, k, o)
    → Fills l.mailbox k.mailbox
unfolding listen_socket
listen_socket-Fills junk a l k b o e =
    let ((got, buffer, c), p, q) = >>=-eq-ok (receive_data a l.connection) _ e in
    let (_, p', q') = >>=-eq-ok (guard got failed_to_receive) _ q in
    let ((written, mail, out), p'', q'') =
      >>=-eq-ok (write_mail_buffer buffer (new_mail junk) l.mailbox) _ q' in
    let fits : Fit l.mailbox.delivery_service mail =
      elim (write_mail_buffer-IsTyped buffer (new_mail junk) mail l.mailbox written out p'') [
        | inl (_, typed) ↦ inr typed
        | inr (_, by_tcp, _) ↦ inl by_tcp
      ] in
    let noted = note_failure written out (record l { connection = c }) in
    let same = note_failure-mailbox written out (record l { connection = c }) in
    rw same at (receive_mail-Fills junk mail noted.0 o noted.1 k b (rw same fits) q'')

-- The ERR of a signal has the type of its data.
write_error-IsTyped :
    (mail m : Mail) (ref : ℤ) (mb : MailBox)
    → write_mail_type err mail ref mb ≡ ok m
    → m.type ≡ type_of_data m.payload
unfolding write_mail_type make_error type_of_data
write_error-IsTyped mail m ref mb e = ground arith

signal_end-Fills :
    (junk : MessageType) (l k : Listener) (b : Bool) (o : List Output)
    → signal_end junk l ≡ ok (b, k, o)
    → Fills l.mailbox k.mailbox
unfolding signal_end
signal_end-Fills junk l k b o e =
    let (m, p, q) = >>=-eq-ok (write_mail_type err (new_mail junk) minus_one l.mailbox) _ e in
    let typed = write_error-IsTyped (new_mail junk) m minus_one l.mailbox p in
    let same : k.mailbox ≡ add_mail (record m { sigint = true }) l.mailbox = ground arith in
    rw same (add_mail-Fills (record m { sigint = true }) l.mailbox (λ y. inr (inl typed)))

listen_signal-Fills :
    (junk : MessageType) (r : PipeRead) (l k : Listener) (b : Bool) (o : List Output)
    → listen_signal junk r l ≡ ok (b, k, o)
    → Fills l.mailbox k.mailbox
unfolding listen_signal
listen_signal-Fills junk at_eof l k b o e =
    let same : k ≡ l = ground arith in rw same (Fills-refl l.mailbox)
listen_signal-Fills junk broken l k b o e = cc
listen_signal-Fills junk try_again l k b o e = signal_end-Fills junk l k b o e
listen_signal-Fills junk (chunk c) l k b o e = signal_end-Fills junk l k b o e

abbrev pub is_to_send : Event → Bool
is_to_send (to_send_ready r) = true
is_to_send _ = false

pub handle-Fills :
    (junk : MessageType) (e : Event) (l k : Listener) (out o : List Output)
    → is_to_send e ≡ false
    → handle junk e l out ≡ ok (k, o)
    → Fills l.mailbox k.mailbox
unfolding handle
handle-Fills junk (stdin_ready r) l k out o i h =
    let (b, p, q) = must-eq-ok (listen_stdin junk r l) out o k h in
    listen_stdin-Fills junk r l k b p q
handle-Fills junk (socket_ready a) l k out o i h =
    let (b, p, q) = must-eq-ok (listen_socket junk a l) out o k h in
    listen_socket-Fills junk a l k b p q
handle-Fills junk (to_send_ready r) l k out o i h = cc
handle-Fills junk (signal_ready r) l k out o i h =
    let (b, p, q) = must-eq-ok (listen_signal junk r l) out o k h in
    listen_signal-Fills junk r l k b p q
handle-Fills junk unknown_ready l k out o i h = cc
handle-Fills junk stray l k out o i h =
    let same : k ≡ l = ground arith in rw same (Fills-refl l.mailbox)
