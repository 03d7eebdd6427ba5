-- ===== src/Net.antt =====
-- src/net.cpp and src/headers/net.h: what is handed to the socket, and what is received into the
-- listener's array. The answers of the kernel are arguments, or fields that say whether a call
-- fails.
pub mod Arrays
pub mod Socket
pub mod Hex
pub mod Log
pub mod Network
use tcp_udp_chat_server.Serializer.{serialize}
use tcp_udp_chat_server.MailBox.Udp.{by_udp}
use tcp_udp_chat_server.MailBox.State.{ProtocolType, tcp, udp}
use tcp_udp_chat_server.Mail.Types.{Mail}
use tcp_udp_chat_server.Common.{
  ◌>>=◌, Bool, Bytes, List, Result, [], connection_closed, failed_to_receive, failed_to_send, false,
  if◌then◌else◌, leb, length, minus_one, no_such_host, ok, out_of_bounds, pos, replicate, take,
  throw, true, ℕ, ℤ, ◌++◌, ◌-◌, ◌==◌, ◌∷◌,
}

-- A `NetworkConnection` with its protocol; `sent` is what `send` and `sendto` were given, in order.
pub record Connection : Type 0 where
  pub protocol : ProtocolType
  pub port : ℕ
  pub timeout : ℤ
  pub retries : ℤ
  pub send_fails : Bool
  pub sent : List Bytes

-- `NetworkConnection(type, ip, port, timeout, retries)`: TCP leaves the timeout and the retries at
-- -1.
unfoldable pub make_connection : ProtocolType → ℕ → ℕ → ℕ → Connection
make_connection tcp port timeout retries = record {
  protocol = tcp;
  port = port;
  timeout = minus_one;
  retries = minus_one;
  send_fails = false;
  sent = [];
}
make_connection udp port timeout retries = record {
  protocol = udp;
  port = port;
  timeout = pos timeout;
  retries = pos retries;
  send_fails = false;
  sent = [];
}

-- `sendData` of the two protocols.
unfoldable pub send_data : Mail → Connection → Result Connection
send_data mail c =
    if c.send_fails
    then throw failed_to_send
    else ok (record c { sent = c.sent ++ serialize (by_udp c.protocol) mail ∷ [] })

-- What `recv` or `recvfrom` has to give: nothing (and whether that is EAGAIN), or bytes from a port
-- (and whether the host's name still resolves, where it is looked up eagain).
pub data Arrival : Type 0 where
  nothing : Bool → Arrival
  packet : Bytes → ℕ → Bool → Arrival

-- A `memcpy` of the first `limit` bytes into `char buffer[1024] = {0}`.
unfoldable pub copy_into_array : ℕ → Bytes → Result Bytes
copy_into_array limit bytes =
    if leb (length (take limit bytes)) 1024
    then ok (take limit bytes ++ replicate (1024 - length (take limit bytes)) 0)
    else throw out_of_bounds

-- `UdpProtocol::connectToServer`, where the sender's port is new.
unfoldable pub follow_port : ℕ → Bool → Connection → Result Connection
follow_port sender_port resolves c =
    if sender_port == c.port
    then ok c
    else if resolves
    then ok (record c { port = sender_port })
    else throw no_such_host

-- `UdpProtocol::receiveData`: up to 1500 bytes.
unfoldable pub receive_udp : Arrival → Connection → Result (Bool × Bytes × Connection)
receive_udp (nothing eagain) c =
    if eagain then ok (false, replicate 1024 0, c) else throw failed_to_receive
receive_udp (packet [] sender_port resolves) c = throw connection_closed
receive_udp (packet (b ∷ bytes) sender_port resolves) c = do
  buffer ← copy_into_array 1500 (b ∷ bytes)
  d ← follow_port sender_port resolves c
  ok (true, buffer, d)

-- `TcpProtocol::receiveData`: up to 1024 bytes, and none where the peer has closed.
unfoldable pub receive_tcp : Arrival → Connection → Result (Bool × Bytes × Connection)
receive_tcp (nothing eagain) c = throw failed_to_receive
receive_tcp (packet bytes sender_port resolves) c = do
  buffer ← copy_into_array 1024 bytes
  ok (true, buffer, c)

-- `NetworkConnection::receiveData`.
unfoldable pub receive_data : Arrival → Connection → Result (Bool × Bytes × Connection)
receive_data a c = elim c.protocol [ udp ↦ receive_udp a c | tcp ↦ receive_tcp a c ]
