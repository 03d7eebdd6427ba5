-- ===== src/Listener/Retry.antt =====
-- src/listeners.cpp, Listener::runListener: retransmission, round by round, while `epoll_wait` only
-- runs into its timeout.
use tcp_udp_chat_server.Serializer.{serialize}
use tcp_udp_chat_server.Net.{send_data}
use tcp_udp_chat_server.MailBox.Udp.{by_udp}
use tcp_udp_chat_server.Mail.Types.{MessageType}
use tcp_udp_chat_server.Listener.State.{Listener}
use tcp_udp_chat_server.Listener.Loop.{loop_round, retry, timed_out, toggle_to_send}
use tcp_udp_chat_server.Listener.Handlers.{send}
use tcp_udp_chat_server.Common.{
  append_assoc, Bytes, append-nil, refl, replicate, server_not_responding, sym, throw, ◌∙◌, ◌≤◌,
  arith, Result, [], false, ok, pos, suc, zero, ℕ, ◌++◌, ◌+◌, ◌<◌, ◌>>=◌, ◌∷◌, ◌≡◌,
}

-- `n` rounds in a row that run into the timeout.
unfoldable pub timeouts : MessageType → ℕ → Listener → Result Listener
timeouts junk zero l = ok l
timeouts junk (suc n) l = loop_round junk timed_out l >>= λ r. timeouts junk n r.0

pub round_timed_out :
    (junk : MessageType) (l : Listener) (limit : ℕ)
    → l.received_confirm ≡ false
    → l.connection.retries ≡ pos limit
    → l.connection.send_fails ≡ false
    → l.retries < limit
    → loop_round junk timed_out l
      ≡ ok (
        record (toggle_to_send l) {
          retries = l.retries + 1;
          connection = record l.connection {
            sent = l.connection.sent ++ serialize (by_udp l.connection.protocol) l.conf_mail ∷ [];
          };
        },
        [],
      )
unfolding loop_round retry toggle_to_send send send_data
round_timed_out junk l limit w r s h = ground arith

-- The bytes of the mail that waits for its CONFIRM.
abbrev pub awaited : Listener → Bytes
awaited l = serialize (by_udp l.connection.protocol) l.conf_mail

-- What the rounds need: a CONFIRM is awaited, and the socket can be written to.
pub record Waits (limit : ℕ) (l : Listener) : Type 0 where
  pub waiting : l.received_confirm ≡ false
  pub limit_is : l.connection.retries ≡ pos limit
  pub can_send : l.connection.send_fails ≡ false

-- The listener after one more transmission.
abbrev pub resent : Listener → Listener
resent l = record (toggle_to_send l) {
  retries = l.retries + 1;
  connection = record l.connection { sent = l.connection.sent ++ awaited l ∷ [] };
}

pub resent-Waits : (limit : ℕ) (l : Listener) → Waits limit l → Waits limit (resent l)
unfolding toggle_to_send
resent-Waits limit l w = ground (arith, w.waiting, w.limit_is, w.can_send)

resent-awaited : (l : Listener) → awaited (resent l) ≡ awaited l
unfolding toggle_to_send
resent-awaited l = ground arith

-- Where a CONFIRM is awaited, the socket can be written to and `n` more retries are left, `n`
-- rounds that time out succeed: each sends the awaited mail's bytes once more, and nothing else,
-- and is counted.
pub timeouts_resend :
    (junk : MessageType) (n limit : ℕ) (l : Listener)
    → Waits limit l
    → l.retries + n ≤ limit
    → (k : Listener) × (timeouts junk n l ≡ ok k)
      × (k.retries ≡ l.retries + n)
      × (k.connection.sent ≡ l.connection.sent ++ replicate n (awaited l))
      × Waits limit k
unfolding timeouts
timeouts_resend junk zero limit l w h =
    (l, refl, omega arith, sym (append-nil l.connection.sent), w)
timeouts_resend junk (suc n) limit l w h =
    let first = round_timed_out junk l limit w.waiting w.limit_is w.can_send (omega arith) in
    let (k, runs, count, sent, w') =
      timeouts_resend junk n limit (resent l) (resent-Waits limit l w) (omega arith) in
    (k, rw first runs, omega arith, sent ∙ simp (resent-awaited l, append_assoc), w')

pub round_gives_up :
    (junk : MessageType) (l : Listener) (limit : ℕ)
    → l.connection.retries ≡ pos limit
    → limit ≤ l.retries
    → loop_round junk timed_out l ≡ throw server_not_responding
unfolding loop_round retry toggle_to_send
round_gives_up junk l limit r h = ground arith

-- Where a CONFIRM is awaited and the socket can be written to, one timeout more than the retries
-- that are left ends the loop with "Server not responding".
pub timeouts_give_up :
    (junk : MessageType) (n limit : ℕ) (l : Listener)
    → Waits limit l
    → l.retries + n ≡ limit
    → timeouts junk (suc n) l ≡ throw server_not_responding
unfolding timeouts
timeouts_give_up junk zero limit l w h = rw (round_gives_up junk l limit w.limit_is (omega arith))
timeouts_give_up junk (suc n) limit l w h =
    let first = round_timed_out junk l limit w.waiting w.limit_is w.can_send (omega arith) in
    rw first (timeouts_give_up junk n limit (resent l) (resent-Waits limit l w) (omega arith))
