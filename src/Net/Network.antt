-- ===== src/Net/Network.antt =====
-- src/net.cpp, class NetworkConnection: the calls that go through its pointer to the protocol.
use tcp_udp_chat_server.Serializer.{serialize}
use tcp_udp_chat_server.Net.Socket.{
  connect_to_server, create_socket, Socket, close_connection, destroy, open_connection,
}
use tcp_udp_chat_server.Net.{Arrival, Connection, make_connection, receive_data, send_data}
use tcp_udp_chat_server.MailBox.Udp.{by_udp}
use tcp_udp_chat_server.MailBox.State.{tcp, udp, ProtocolType}
use tcp_udp_chat_server.Mail.Types.{Mail}
use tcp_udp_chat_server.Common.{
  arith, leb_ℤ, pos, refl, ◌++◌, Bool, Bytes, List, Option, Result, [], false, none, ok,
  out_of_bounds, some, throw, true, ℕ, ℤ, ◌>>=◌, ◌∷◌, ◌≡◌,
}

-- The protocol that `protocolPtr` holds, with its socket; none where it is null.
pub record Network : Type 0 where
  pub protocol_ptr : Option (Connection × Socket)

-- The constructor; `junk` is the descriptor, which has no initialiser.
unfoldable pub make_network : ProtocolType → ℕ → ℕ → ℕ → ℤ → Network
make_network type port timeout retries junk = record {
  protocol_ptr = some (
    make_connection type port timeout retries,
    record { protocol = type; sockfd = junk; closed = [] },
  );
}

-- `sendData`.
unfoldable pub network_send : Mail → Network → Result Network
network_send mail n = elim n.protocol_ptr [
  | none ↦ ok n
  | some (c, s) ↦ send_data mail c >>= λ d. ok (record { protocol_ptr = some (d, s) })
]

-- `receiveData`; with no protocol the array stays as it is.
unfoldable pub network_receive : Arrival → Bytes → Network → Result (Bool × Bytes × Network)
network_receive a buffer n = elim n.protocol_ptr [
  | none ↦ ok (true, buffer, n)
  | some (c, s) ↦ receive_data a c >>= λ r. ok (r.0, r.1, record { protocol_ptr = some (r.2, s) })
]

-- `openConnection`.
unfoldable pub network_open : ℤ → Bool → Bool → Network → Result (Bool × Network)
network_open fd resolves connects n = elim n.protocol_ptr [
  | none ↦ ok (false, n)
  | some (c, s) ↦ open_connection fd resolves connects s >>= λ r.
      ok (r.0, record { protocol_ptr = some (c, r.1) })
]

-- `closeConnection`.
unfoldable pub network_close : Network → Bool × Network
network_close n = elim n.protocol_ptr [
  | none ↦ (false, n)
  | some (c, s) ↦ (true, record { protocol_ptr = some (c, close_connection s) })
]

-- `getFdsocket`; a null pointer is followed.
unfoldable pub get_fdsocket : Network → Result ℤ
get_fdsocket n = elim n.protocol_ptr [ none ↦ throw out_of_bounds | some (c, s) ↦ ok s.sockfd ]

-- `setProtocol`: the protocol that was held is destroyed; what its destructor closes comes with it.
unfoldable pub set_protocol : Option (Connection × Socket) → Network → Network × List ℤ
set_protocol p n = (
  record { protocol_ptr = p },
  elim n.protocol_ptr [ none ↦ [] | some (c, s) ↦ (destroy s).closed ],
)

opened_is :
    (fd : ℤ) (resolves connects : Bool) (c : Connection) (s : Socket) (n : Network)
    → network_open fd resolves connects (record { protocol_ptr = some (c, s) }) ≡ ok (true, n)
    → (leb_ℤ (pos 0) fd ≡ true) × (n ≡ record { protocol_ptr = some (c, record s { sockfd = fd }) })
unfolding network_open open_connection create_socket connect_to_server
opened_is fd resolves connects c s n e = ground arith

close_open :
    (fd : ℤ) (s : Socket)
    → leb_ℤ (pos 0) fd ≡ true
    → (close_connection (record s { sockfd = fd })).closed ≡ s.closed ++ fd ∷ []
unfolding close_connection
close_open fd s y = rw y refl

-- A connection that the constructor makes, whose opening gives true: `getFdsocket` then gives the
-- descriptor that `socket` gave; a mail that is sent goes to the socket in the form of the
-- protocol, if the kernel takes it; and `closeConnection` gives that descriptor, and no other, to
-- `close`.
pub opened_network :
    (type : ProtocolType) (port timeout retries : ℕ) (junk fd : ℤ) (resolves connects : Bool)
    (mail : Mail) (n : Network)
    → network_open fd resolves connects (make_network type port timeout retries junk) ≡ ok (true, n)
    → (get_fdsocket n ≡ ok fd)
      × ((k : Network) × (c : Connection) × (s : Socket) × (network_send mail n ≡ ok k)
          × ((network_close k).1.protocol_ptr ≡ some (c, s))
          × (c.sent ≡ serialize (by_udp type) mail ∷ [])
          × (s.closed ≡ fd ∷ []))
unfolding make_network get_fdsocket network_send network_close send_data make_connection
opened_network tcp port timeout retries junk fd resolves connects mail n e =
    let (opens, is) = opened_is fd resolves connects _ _ n e in
    rw is (
      refl,
      (
        record { protocol_ptr = some (_, _) },
        _,
        _,
        refl,
        refl,
        refl,
        close_open fd (record { protocol = tcp; sockfd = junk; closed = [] }) opens,
      ),
    )
opened_network udp port timeout retries junk fd resolves connects mail n e =
    let (opens, is) = opened_is fd resolves connects _ _ n e in
    rw is (
      refl,
      (
        record { protocol_ptr = some (_, _) },
        _,
        _,
        refl,
        refl,
        refl,
        close_open fd (record { protocol = udp; sockfd = junk; closed = [] }) opens,
      ),
    )
