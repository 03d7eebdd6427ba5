-- ===== src/Listener/Epoll.antt =====
-- src/listeners.cpp, class Listener: the map of the descriptors, and which of them epoll watches:
-- addFd, registerFds, registerFd, unregisterFd, and what runListener does with them. epoll itself
-- is a parameter.
use tcp_udp_chat_server.Pipe.{FdType}
use tcp_udp_chat_server.Mail.Types.{MessageType}
use tcp_udp_chat_server.Listener.State.{Listener}
use tcp_udp_chat_server.Listener.Loop.{Wake, goes_on, round_body}
use tcp_udp_chat_server.Common.{
  Bool, List, Option, Result, [], eq_ℤ, failed_to_register, failed_to_unregister, false,
  if◌then◌else◌, none, not, ok, some, throw, true, ℤ, ◌&&◌, ◌>>=◌, ◌||◌, ◌∷◌, ◌≡◌,
}

-- An epoll instance over an unknown state. `ctl_add` and `ctl_del` are `epoll_ctl` with
-- EPOLL_CTL_ADD and EPOLL_CTL_DEL, none where it gives -1; `watches` says whether a descriptor is
-- in the interest list; `can_watch` says whether a descriptor is open and of a kind that epoll
-- supports, and the kernel has the memory for it and the user has not reached the limit of watches.
pub record Epoll : Type 1 where
  pub Interest : Type 0
  pub created : Interest
  pub ctl_add : ℤ → Interest → Option Interest
  pub ctl_del : ℤ → Interest → Option Interest
  pub watches : ℤ → Interest → Bool
  pub can_watch : ℤ → Bool

-- What the manual of epoll says of it: an add of a descriptor that can be watched (so none of
-- EBADF, EPERM, ENOMEM and ENOSPC) fails only where it is in the list (EEXIST), a delete only where
-- it is not (ENOENT), the descriptor being open still, and both change nothing else.
pub record IsLawful (E : Epoll) : Type 0 where
  pub watches-created : (fd : ℤ) → E.watches fd E.created ≡ false
  pub ctl_add_lem :
      (fd : ℤ) (s : E.Interest)
      → E.can_watch fd ≡ true
      → E.watches fd s ≡ false
      → (t : E.Interest) × (E.ctl_add fd s ≡ some t)
        × ((j : ℤ) → E.watches j t ≡ (eq_ℤ j fd || E.watches j s))
  pub ctl_del_lem :
      (fd : ℤ) (s : E.Interest)
      → E.can_watch fd ≡ true
      → E.watches fd s ≡ true
      → (t : E.Interest) × (E.ctl_del fd s ≡ some t)
        × ((j : ℤ) → E.watches j t ≡ (not (eq_ℤ j fd) && E.watches j s))

-- `std::unordered_map<int, fdType>`, without its order.
abbrev pub FdMap : Type 0
FdMap = List (ℤ × FdType)

-- `addFd`: `fdMap[fd] = type;`
unfoldable pub add_fd : ℤ → FdType → FdMap → FdMap
add_fd fd type [] = (fd, type) ∷ []
add_fd fd type ((k, t) ∷ rest) =
    let more = add_fd fd type rest in if eq_ℤ fd k then (k, type) ∷ rest else (k, t) ∷ more

-- Several calls of `addFd`.
unfoldable pub add_fds : List (ℤ × FdType) → FdMap → FdMap
add_fds [] fds = fds
add_fds ((fd, type) ∷ more) fds = add_fds more (add_fd fd type fds)

module _ (E : Epoll) where
  -- `registerFd`.
  unfoldable pub register_fd : ℤ → E.Interest → Result E.Interest
  register_fd fd s = elim (E.ctl_add fd s) [ none ↦ throw failed_to_register | some t ↦ ok t ]

  -- `registerFds`.
  unfoldable pub register_fds : FdMap → E.Interest → Result E.Interest
  register_fds [] s = ok s
  register_fds ((fd, type) ∷ rest) s = register_fd fd s >>= λ t. register_fds rest t

  -- `unregisterFd`.
  unfoldable pub unregister_fd : ℤ → E.Interest → Result E.Interest
  unregister_fd fd s = elim (E.ctl_del fd s) [ none ↦ throw failed_to_unregister | some t ↦ ok t ]

  -- The top of a round: the descriptor `fd` of the mails to send is watched while no CONFIRM is
  -- awaited.
  unfoldable pub toggle_watch : ℤ → Listener → E.Interest → Result (Listener × E.Interest)
  toggle_watch fd l s =
      if not l.received_confirm && l.to_send_registered
      then (unregister_fd fd s >>= λ t. ok (record l { to_send_registered = false }, t))
      else if l.received_confirm && not l.to_send_registered
      then (register_fd fd s >>= λ t. ok (record l { to_send_registered = true }, t))
      else ok (l, s)

  -- Rounds of the loop on what `epoll_wait` returns; it leaves the loop where the test fails.
  unfoldable pub watch_rounds :
      MessageType → ℤ → List Wake → Listener → E.Interest → Result (Listener × E.Interest)
  watch_rounds junk fd [] l s = ok (l, s)
  watch_rounds junk fd (w ∷ ws) l s =
      if goes_on l
      then (toggle_watch fd l s >>= λ k.
          round_body junk w k.0 >>= λ r. watch_rounds junk fd ws r.0 k.1)
      else ok (l, s)

  -- `runListener` from the registering on.
  unfoldable pub run_watching :
      MessageType → ℤ → FdMap → List Wake → Listener → Result (Listener × E.Interest)
  run_watching junk fd fds ws l = register_fds fds E.created >>= λ s. watch_rounds junk fd ws l s
