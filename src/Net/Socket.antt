-- ===== src/Net/Socket.antt =====
-- src/net.cpp, TcpProtocol and UdpProtocol: making and closing the socket. What `socket`,
-- `gethostbyname` and `connect` answer are arguments.
use tcp_udp_chat_server.MailBox.State.{ProtocolType, tcp, udp}
use tcp_udp_chat_server.Common.{
  Bool-cases, append-nil, inl, inr, refl, sym, arith, failed_to_open, ◌↔◌, ◌≡◌, ◌⊎◌, Bool, List,
  Result, [], connection_failed, false, guard, if◌then◌else◌, leb_ℤ, minus_one, no_such_host, ok,
  pos, true, ℤ, ◌++◌, ◌>>=◌, ◌>>◌, ◌∷◌,
}

-- The members of a `NetworkProtocol` that its socket is in; `closed` is what `close` was given, in
-- order.
pub record Socket : Type 0 where
  pub protocol : ProtocolType
  pub sockfd : ℤ
  pub closed : List ℤ

-- `createSocket` of the two protocols, with the answer of `socket`.
unfoldable pub create_socket : ℤ → Socket → Bool × Socket
create_socket given s = (leb_ℤ (pos 0) given, record s { sockfd = given })

-- `TcpProtocol::connectToServer`: whether the host's name resolves, and whether `connect` succeeds.
abbrev pub connect_tcp : Bool → Bool → Result Bool
connect_tcp resolves connects =
    guard resolves no_such_host >> guard connects connection_failed >> ok true

-- `UdpProtocol::connectToServer`, which only looks the name up.
abbrev pub connect_udp : Bool → Result Bool
connect_udp resolves = guard resolves no_such_host >> ok true

-- `connectToServer` of the protocol at hand.
unfoldable pub connect_to_server : Bool → Bool → Socket → Result Bool
connect_to_server resolves connects s = elim s.protocol [
  | tcp ↦ connect_tcp resolves connects
  | udp ↦ connect_udp resolves
]

-- `openConnection`.
unfoldable pub open_connection : ℤ → Bool → Bool → Socket → Result (Bool × Socket)
open_connection given resolves connects s =
    let (created, t) = create_socket given s in
    if created then (connect_to_server resolves connects t >>= λ c. ok (c, t)) else ok (false, t)

-- `closeConnection`.
unfoldable pub close_connection : Socket → Socket
close_connection s =
    if leb_ℤ (pos 0) s.sockfd
    then record s { sockfd = minus_one; closed = s.closed ++ s.sockfd ∷ [] }
    else s

-- The destructor.
unfoldable pub destroy : Socket → Socket
destroy s = if leb_ℤ (pos 0) s.sockfd then record s { closed = s.closed ++ s.sockfd ∷ [] } else s

-- `runMain`: `if (connection.openConnection() == false) throw …`
unfoldable pub open_or_throw : ℤ → Bool → Bool → Socket → Result Socket
open_or_throw given resolves connects s =
    open_connection given resolves connects s >>= λ r. guard r.0 failed_to_open >> ok r.1

-- `connectToServer` on every branch.
connect_to_server_iff :
    (resolves connects : Bool) (s : Socket) (c : Bool)
    → (connect_to_server resolves connects s ≡ ok c)
      ↔ ((c ≡ true) × (resolves ≡ true) × ((s.protocol ≡ udp) ⊎ (connects ≡ true)))
unfolding connect_to_server
connect_to_server_iff resolves connects s c = ground arith

closed_twice :
    (given : ℤ) (s : Socket)
    → (destroy (close_connection (close_connection (record s { sockfd = given })))).closed
      ≡ s.closed ++ (if leb_ℤ (pos 0) given then given ∷ [] else [])
unfolding close_connection destroy
closed_twice given s = elim (Bool-cases (leb_ℤ (pos 0) given)) [
  | inl y ↦ rw y refl
  | inr n ↦ rw (n, n, n) (sym (append-nil s.closed))
]

-- The program gets past the opening of its connection exactly where `socket` gives a descriptor,
-- the host's name resolves, and, by TCP, `connect` succeeds; it then has that descriptor. Closing
-- such a connection, a second time as well, and destroying it give the descriptor to `close` once.
pub open_or_throw-closed_once :
    (given : ℤ) (resolves connects : Bool) (s t : Socket)
    → ((open_or_throw given resolves connects s ≡ ok t) ↔ (
        (t ≡ record s { sockfd = given })
        × (leb_ℤ (pos 0) given ≡ true)
        × (resolves ≡ true)
        × ((s.protocol ≡ udp) ⊎ (connects ≡ true))))
      × ((destroy (close_connection (close_connection (record s { sockfd = given })))).closed
          ≡ s.closed ++ (if leb_ℤ (pos 0) given then given ∷ [] else []))
unfolding open_or_throw open_connection create_socket connect_to_server
open_or_throw-closed_once given resolves connects s t = (ground arith, closed_twice given s)
