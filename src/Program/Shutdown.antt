-- ===== src/Program/Shutdown.antt =====
-- src/main.cpp, runMain behind fsm.run(), with Listener::stop, the destructors of Listener and
-- Pipe, and NetworkConnection::closeConnection: the descriptors that `close` is given.
use tcp_udp_chat_server.Pipe.Manager.{close_pipe}
use tcp_udp_chat_server.Listener.Watches.{has_fd-add_fd, has_fd}
use tcp_udp_chat_server.Pipe.{socket_pipe, stdin_pipe, Pipe, signal_pipe, to_send_pipe}
use tcp_udp_chat_server.Net.Socket.{Socket, close_connection, destroy}
use tcp_udp_chat_server.Listener.Epoll.{add_fds, FdMap}
use tcp_udp_chat_server.Common.{
  ap, append-nil, ◌∙◌, eq_ℤ_iff, false, refl, sym, Bool-cases, arith, inl, inr, leb_ℤ, pos, true,
  ◌+◌, ◌≡◌, ◌≤◌, ◌⊎◌, List, [], eq_ℤ, if◌then◌else◌, minus_one, suc, ℕ, ℤ, ◌++◌, ◌∷◌,
}

-- The `for` over `fdMap` in Listener::stop, and the one in the destructor. The order of the map is
-- not specified.
unfoldable pub close_all : FdMap → List ℤ
close_all [] = []
close_all ((fd, type) ∷ rest) = fd ∷ close_all rest

-- From `myListener.stop()` to the end of `runMain`, with the pipes `p` of the keyboard, `q` of the
-- mails to send and `r` of the signals: what `close` is given, in order. The objects are destroyed
-- in the order opposite to that of their definitions.
unfoldable pub shut_down : FdMap → Socket → Pipe → Pipe → Pipe → List ℤ
shut_down fds socket p q r =
    let shut = close_connection (record socket { closed = close_all fds }) in
    let rest = close_all fds ++ (close_pipe r ++ (close_pipe q ++ close_pipe p)) in
    (destroy (record shut { closed = shut.closed ++ rest })).closed

-- The calls of `addFd` in `runMain`.
abbrev pub main_fds : Socket → Pipe → Pipe → Pipe → FdMap
main_fds socket p q r =
    add_fds
      ((p.read_fd, stdin_pipe)
        ∷ (socket.sockfd, socket_pipe)
        ∷ (q.read_fd, to_send_pipe)
        ∷ (r.read_fd, signal_pipe)
        ∷ [])
      []

-- How often a descriptor is closed.
abbrev pub count : ℤ → List ℤ → ℕ
count j [] = 0
count j (k ∷ l) = let rest = count j l in if eq_ℤ j k then suc rest else rest

count-append : (j : ℤ) (k l : List ℤ) → count j (k ++ l) ≡ count j k + count j l
count-append j [] l = omega arith
count-append j (i ∷ k) l = let rest = count-append j k l in ground arith

count-close_all : (j : ℤ) (fds : FdMap) → has_fd j fds ≡ true → 1 ≤ count j (close_all fds)
unfolding close_all has_fd
count-close_all j [] h = cc
count-close_all j ((fd, type) ∷ rest) h = elim (Bool-cases (eq_ℤ j fd)) [
  | inl y ↦ rw y (omega arith)
  | inr n ↦ let more = count-close_all j rest (ground arith) in ground arith
]

-- What the descriptor's owner does: the connection, or the pipe whose read end it is.
closed_by_owner :
    (j : ℤ) (socket : Socket) (p q r : Pipe)
    → leb_ℤ (pos 0) j ≡ true
    → has_fd j (main_fds socket p q r) ≡ true
    → ((j ≡ socket.sockfd) ⊎ (j ≡ p.read_fd)) ⊎ ((j ≡ q.read_fd) ⊎ (j ≡ r.read_fd))
unfolding add_fds has_fd
closed_by_owner j socket p q r nonneg h =
    let any_of = rw (has_fd-add_fd, has_fd-add_fd, has_fd-add_fd, has_fd-add_fd) at h in
    elim (Bool-cases (eq_ℤ j r.read_fd)) [
      | inl y ↦ inr (inr ((eq_ℤ_iff j r.read_fd).0 y))
      | inr a ↦ elim (Bool-cases (eq_ℤ j q.read_fd)) [
        | inl y ↦ inr (inl ((eq_ℤ_iff j q.read_fd).0 y))
        | inr b ↦ elim (Bool-cases (eq_ℤ j socket.sockfd)) [
          | inl y ↦ inl (inl ((eq_ℤ_iff j socket.sockfd).0 y))
          | inr c ↦ inl (inr ((eq_ℤ_iff j p.read_fd).0 (ground arith)))
        ]
      ]
    ]

count-close_pipe :
    (j : ℤ) (p : Pipe) → leb_ℤ (pos 0) j ≡ true → j ≡ p.read_fd → 1 ≤ count j (close_pipe p)
unfolding close_pipe
count-close_pipe j p nonneg is =
    let self = (eq_ℤ_iff j j).1 refl in
    let given : eq_ℤ p.read_fd minus_one ≡ false = ground arith in ground arith

-- What the connection itself closes.
abbrev own_socket : Socket → List ℤ
own_socket s = if leb_ℤ (pos 0) s.sockfd then s.sockfd ∷ [] else []

closed_once :
    (s : Socket) (rest : List ℤ)
    → (destroy
        (record (close_connection s) { closed = (close_connection s).closed ++ rest })).closed
      ≡ (s.closed ++ own_socket s) ++ rest
unfolding close_connection destroy
closed_once s rest = elim (Bool-cases (leb_ℤ (pos 0) s.sockfd)) [
  | inl y ↦ rw y refl
  | inr n ↦ rw (n, n) (ap (λ l. l ++ rest) (sym (append-nil s.closed)))
]

-- How often `close` gets a descriptor, by who gives it.
count-shut_down :
    (j : ℤ) (fds : FdMap) (socket : Socket) (p q r : Pipe)
    → count j (shut_down fds socket p q r)
      ≡ count j (close_all fds)
        + count j (own_socket socket)
        + (count j (close_all fds)
            + (count j (close_pipe r) + (count j (close_pipe q) + count j (close_pipe p))))
unfolding shut_down
count-shut_down j fds socket p q r =
    ap (count j) (closed_once (record socket { closed = close_all fds }) _)
    ∙ rw (count-append, count-append, count-append, count-append, count-append) refl

-- Whatever the socket and the pipes are: each descriptor that `runMain` gives to `addFd`, and that
-- is an open one, so no negative number, is given to `close` three times or more between
-- `myListener.stop()` and the end of `runMain`: by `stop`, by the destructor of the listener, and
-- by the connection or the pipe that it belongs to.
pub closed_three_times :
    (j : ℤ) (socket : Socket) (p q r : Pipe)
    → leb_ℤ (pos 0) j ≡ true
    → has_fd j (main_fds socket p q r) ≡ true
    → 3 ≤ count j (shut_down (main_fds socket p q r) socket p q r)
closed_three_times j socket p q r nonneg h =
    let fds = main_fds socket p q r in
    let twice = count-close_all j fds h in
    let sum = count-shut_down j fds socket p q r in
    elim (closed_by_owner j socket p q r nonneg h) [
      | inl (inl is) ↦
          let self = (eq_ℤ_iff j j).1 refl in
          let once : 1 ≤ count j (own_socket socket) = rw (sym is) (ground arith) in
          omega (arith, twice, sum, once)
      | inl (inr is) ↦ omega (arith, twice, sum, count-close_pipe j p nonneg is)
      | inr (inl is) ↦ omega (arith, twice, sum, count-close_pipe j q nonneg is)
      | inr (inr is) ↦ omega (arith, twice, sum, count-close_pipe j r nonneg is)
    ]
