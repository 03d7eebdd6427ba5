-- ===== src/Tests/Watching.antt =====
-- The loop of the listener with an epoll whose interest list is a list of descriptors.
use tcp_udp_chat_server.Tests.Data.{waiting_listener}
use tcp_udp_chat_server.Pipe.{FdType, signal_pipe, socket_pipe, stdin_pipe, to_send_pipe}
use tcp_udp_chat_server.Mail.Types.{msg}
use tcp_udp_chat_server.Listener.Watching.{Watches, run_watching-Watches}
use tcp_udp_chat_server.Listener.Watches.{has_fd}
use tcp_udp_chat_server.Listener.Loop.{Wake, interrupted, timed_out}
use tcp_udp_chat_server.Listener.Hang.{run_listener}
use tcp_udp_chat_server.Listener.Epoll.{Epoll, IsLawful, add_fd, add_fds, run_watching}
use tcp_udp_chat_server.Common.{
  Bool, Bool-cases, List, [], arith, eq_ℤ, eq_ℤ_iff, false, if◌then◌else◌, inl, inr, none, not, pos,
  refl, some, true, ℤ, ◌&&◌, ◌||◌, ◌∷◌, ◌≡◌,
}

abbrev holds : ℤ → List ℤ → Bool
holds j [] = false
holds j (k ∷ s) = eq_ℤ j k || holds j s

abbrev without : ℤ → List ℤ → List ℤ
without j [] = []
without j (k ∷ s) = let rest = without j s in if eq_ℤ k j then rest else k ∷ rest

-- The open descriptors.
abbrev is_open : ℤ → Bool
is_open j = holds j (pos 3 ∷ pos 4 ∷ pos 6 ∷ pos 8 ∷ [])

abbrev listed : Epoll
listed = record {
  Interest = List ℤ;
  created = [];
  ctl_add = λ fd s. if not (is_open fd) || holds fd s then none else some (fd ∷ s);
  ctl_del = λ fd s. if is_open fd && holds fd s then some (without fd s) else none;
  watches = holds;
  can_watch = is_open;
}

holds-without : (j fd : ℤ) (s : List ℤ) → holds j (without fd s) ≡ (not (eq_ℤ j fd) && holds j s)
holds-without j fd [] = ground arith
holds-without j fd (k ∷ s) = elim (Bool-cases (eq_ℤ k fd)) [
  | inl y ↦
      let same : k ≡ fd = (eq_ℤ_iff k fd).0 y in let rest = holds-without j fd s in ground arith
  | inr n ↦
      let rest = holds-without j fd s in
      elim (Bool-cases (eq_ℤ j k)) [
        | inl y ↦ let same : j ≡ k = (eq_ℤ_iff j k).0 y in ground arith
        | inr m ↦ ground arith
      ]
]

listed-IsLawful : IsLawful listed
listed-IsLawful = record {
  watches-created = λ fd. refl;
  ctl_add_lem = λ fd s o n. (fd ∷ s, rw (o, n) refl, λ j. refl);
  ctl_del_lem = λ fd s o y. (without fd s, rw (o, y) refl, λ j. holds-without j fd s);
}

-- The descriptors of runMain.
abbrev fds : List (ℤ × FdType)
fds = (pos 4, stdin_pipe) ∷ (pos 3, socket_pipe) ∷ (pos 6, to_send_pipe) ∷ (pos 8, signal_pipe) ∷ []

abbrev waiting_run : List Wake
waiting_run = timed_out ∷ interrupted ∷ []

fds_can : (j : ℤ) → has_fd j (add_fds fds []) ≡ true → is_open j ≡ true
unfolding has_fd add_fds add_fd
fds_can j h = ground arith

-- The retransmission of a mail for which a CONFIRM is awaited: the descriptor of the mails to send
-- is taken off the list.
run_watching-Watches_example :
    Watches listed
      (pos 6)
      (λ j. has_fd j (add_fds fds []))
      (run_listener msg waiting_run waiting_listener)
      (run_watching listed msg (pos 6) (add_fds fds []) waiting_run waiting_listener)
unfolding has_fd add_fds add_fd
run_watching-Watches_example =
    run_watching-Watches listed listed-IsLawful msg (pos 6) fds waiting_run waiting_listener fds_can
      refl refl
