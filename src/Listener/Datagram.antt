-- ===== src/Listener/Datagram.antt =====
-- src/listeners.cpp, Listener::listenSocket: a datagram that fits into the array, call by call.
use tcp_udp_chat_server.Net.{
  Arrival, Connection, copy_into_array, follow_port, packet, receive_data, receive_udp,
}
use tcp_udp_chat_server.MailBox.Wire.{write_mail_buffer}
use tcp_udp_chat_server.MailBox.State.{udp}
use tcp_udp_chat_server.Mail.Types.{Mail, MessageType, new_mail}
use tcp_udp_chat_server.Listener.State.{Listener}
use tcp_udp_chat_server.Listener.Loop.{handle, socket_ready}
use tcp_udp_chat_server.Listener.Handlers.{listen_socket, note_failure, receive_mail}
use tcp_udp_chat_server.Common.{
  take-all, ◌∙◌, Bool-cases, Bytes, [], arith, inl, inr, length, ok, refl, replicate, true, ℕ, ◌++◌,
  ◌-◌, ◌==◌, ◌∷◌, ◌≡◌, ◌≤◌,
}

follow_port-new :
    (port : ℕ) (c : Connection) → follow_port port true c ≡ ok (record c { port = port })
unfolding follow_port
follow_port-new port c = elim (Bool-cases (port == c.port)) [
  | inl y ↦ let same : port ≡ c.port = ground arith in rw (y, same) refl
  | inr n ↦ rw n refl
]

copied_whole :
    (bytes : Bytes)
    → length bytes ≤ 1024
    → copy_into_array 1500 bytes ≡ ok (bytes ++ replicate (1024 - length bytes) 0)
unfolding copy_into_array
copied_whole bytes h = rw (take-all 1500 bytes (omega arith)) (ground arith)

receive_udp-fits :
    (b : ℕ) (bytes : Bytes) (port : ℕ) (c : Connection)
    → length (b ∷ bytes) ≤ 1024
    → receive_udp (packet (b ∷ bytes) port true) c
      ≡ ok (true, (b ∷ bytes) ++ replicate (1024 - length (b ∷ bytes)) 0, record c { port = port })
unfolding receive_udp
receive_udp-fits b bytes port c h = rw (copied_whole (b ∷ bytes) h, follow_port-new port c) refl

received_by_udp :
    (a : Arrival) (c : Connection) → c.protocol ≡ udp → receive_data a c ≡ receive_udp a c
unfolding receive_data
received_by_udp a c u = ground arith

-- A datagram that fits into the array, by UDP.
pub receive_data-fits :
    (b : ℕ) (bytes : Bytes) (port : ℕ) (c : Connection)
    → c.protocol ≡ udp
    → length (b ∷ bytes) ≤ 1024
    → receive_data (packet (b ∷ bytes) port true) c
      ≡ ok (true, (b ∷ bytes) ++ replicate (1024 - length (b ∷ bytes)) 0, record c { port = port })
receive_data-fits b bytes port c u h =
    received_by_udp (packet (b ∷ bytes) port true) c u ∙ receive_udp-fits b bytes port c h

-- An event of the socket, by what each call of `listenSocket` gives.
pub socket-handled :
    (junk : MessageType) (a : Arrival) (l k : Listener) (buffer : Bytes) (c : Connection)
    (mail : Mail)
    → receive_data a l.connection ≡ ok (true, buffer, c)
    → write_mail_buffer buffer (new_mail junk) l.mailbox ≡ ok (true, mail, [])
    → receive_mail junk mail [] (record l { connection = c }) ≡ ok (true, k, [])
    → handle junk (socket_ready a) l [] ≡ ok (k, [])
unfolding handle listen_socket note_failure
socket-handled junk a l k buffer c mail got written taken = rw (got, written, taken) refl
