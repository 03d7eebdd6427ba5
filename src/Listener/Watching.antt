-- ===== src/Listener/Watching.antt =====
-- src/listeners.cpp, Listener::runListener with epoll: it runs as the loop without epoll does.
use tcp_udp_chat_server.Mail.Print.{Output}
use tcp_udp_chat_server.Pipe.{FdType}
use tcp_udp_chat_server.Mail.Types.{MessageType}
use tcp_udp_chat_server.Listener.Watches.{
  add_fds-Distinct, has_fd, no_fds, register_fds-watches, toggle_watch-toggles,
}
use tcp_udp_chat_server.Listener.State.{Listener}
use tcp_udp_chat_server.Listener.Registered.{round_body-registered}
use tcp_udp_chat_server.Listener.Loop.{Ran, Wake, goes_on, loop_round, round_body, toggle_to_send}
use tcp_udp_chat_server.Listener.Hang.{run_listener}
use tcp_udp_chat_server.Listener.Epoll.{
  toggle_watch, Epoll, IsLawful, add_fds, run_watching, watch_rounds,
}
use tcp_udp_chat_server.Common.{
  eq_ℤ_iff, if◌then◌else◌, Bool, Bool-cases, List, Result, [], arith, eq_ℤ, inl, inr, ok, refl, sym,
  throw, true, ℤ, ◌>>=◌, ◌∙◌, ◌∷◌, ◌≡◌,
}

module _ (E : Epoll) where
  -- How a run with epoll answers one without: it throws the same, or ends with the same listener
  -- while epoll watches `fd` as the listener says, and of the others those that satisfy `kept`.
  abbrev pub Watches : ℤ → (ℤ → Bool) → Result Listener → Result (Listener × E.Interest) → Type 0
  Watches fd kept (throw problem) run = run ≡ throw problem
  Watches fd kept (ok k) run =
      (t : E.Interest) × (run ≡ ok (k, t))
      × ((j : ℤ) → E.watches j t ≡ (if eq_ℤ j fd then k.to_send_registered else kept j))

  -- The interest list that the listener `l` goes with.
  abbrev Matches : ℤ → (ℤ → Bool) → Listener → E.Interest → Type 0
  Matches fd kept l s =
      (j : ℤ) → E.watches j s ≡ (if eq_ℤ j fd then l.to_send_registered else kept j)

module _ (E : Epoll) (lawful : IsLawful E) where
  toggle_watch-Matches :
      (fd : ℤ) (kept : ℤ → Bool) (l : Listener) (s : E.Interest)
      → E.can_watch fd ≡ true
      → Matches E fd kept l s
      → (t : E.Interest) × (toggle_watch E fd l s ≡ ok (toggle_to_send l, t))
        × Matches E fd kept (toggle_to_send l) t
  toggle_watch-Matches fd kept l s can agrees =
      let self = (eq_ℤ_iff fd fd).1 refl in
      let here_too : E.watches fd s ≡ l.to_send_registered = rw self at (agrees fd) in
      let (t, toggled, still, same) = toggle_watch-toggles E lawful fd l s can here_too in
      (
        t,
        toggled,
        λ j. elim (Bool-cases (eq_ℤ j fd)) [
          | inl y ↦ rw (y, (eq_ℤ_iff j fd).0 y) still
          | inr n ↦ same j n ∙ agrees j ∙ rw n refl
        ],
      )

  -- The rest of a round, and the rounds behind it.
  round-Watches :
      (junk : MessageType) (fd : ℤ) (kept : ℤ → Bool) (w : Wake) (ws : List Wake) (l : Listener)
      (t : E.Interest) (r : Result Ran)
      → round_body junk w l ≡ r
      → ((m : Listener) (o : List Output)
          → round_body junk w l ≡ ok (m, o)
          → Watches E fd kept (run_listener junk ws m) (watch_rounds E junk fd ws m t))
      → Watches E fd kept
          (r >>= λ x. run_listener junk ws x.0)
          (r >>= λ x. watch_rounds E junk fd ws x.0 t)
  round-Watches junk fd kept w ws l t (throw problem) e next_rounds = refl
  round-Watches junk fd kept w ws l t (ok (m, o)) e next_rounds = next_rounds m o e

  watch_rounds-Watches :
      (junk : MessageType) (fd : ℤ) (kept : ℤ → Bool) (ws : List Wake) (l : Listener)
      (s : E.Interest)
      → E.can_watch fd ≡ true
      → Matches E fd kept l s
      → Watches E fd kept (run_listener junk ws l) (watch_rounds E junk fd ws l s)
  unfolding watch_rounds run_listener loop_round
  watch_rounds-Watches junk fd kept [] l s can agrees = (s, refl, agrees)
  watch_rounds-Watches junk fd kept (w ∷ ws) l s can agrees = elim (Bool-cases (goes_on l)) [
    | inl y ↦
        let (t, toggled, still) = toggle_watch-Matches fd kept l s can agrees in
        rw (y, toggled)
          (round-Watches junk fd kept w ws (toggle_to_send l) t _ refl (λ m o e.
            watch_rounds-Watches junk fd kept ws m t can
              (λ j. rw (round_body-registered junk w (toggle_to_send l) m o e) (still j))))
    | inr n ↦ rw n (s, refl, agrees)
  ]

  -- Over an epoll that keeps to its manual, where all the descriptors that `addFd` was given are
  -- open all the time, of a kind that epoll supports, and within what the kernel has memory for and
  -- lets the user watch, and the descriptor of the mails to send is among them and is taken to be
  -- registered: `runListener` ends as its loop ends without epoll, with the same exception or the
  -- same listener. So no `epoll_ctl` fails. At the end epoll watches the descriptor of the mails to
  -- send just where `toSendRegistered` is set, and of the others those that `addFd` was given.
  pub run_watching-Watches :
      (junk : MessageType) (fd : ℤ) (adds : List (ℤ × FdType)) (ws : List Wake) (l : Listener)
      → ((j : ℤ) → has_fd j (add_fds adds []) ≡ true → E.can_watch j ≡ true)
      → has_fd fd (add_fds adds []) ≡ true
      → l.to_send_registered ≡ true
      → Watches E fd
          (λ j. has_fd j (add_fds adds []))
          (run_listener junk ws l)
          (run_watching E junk fd (add_fds adds []) ws l)
  unfolding run_watching
  run_watching-Watches junk fd adds ws l can known registered =
      let fds = add_fds adds [] in
      let (s, done, all_of) =
        register_fds-watches E lawful fds E.created (add_fds-Distinct adds [] no_fds) can
          (λ j h. lawful.watches-created j) in
      let watched : (j : ℤ) → E.watches j s ≡ has_fd j fds =
        λ j. let now = all_of j in let none_before = lawful.watches-created j in ground arith in
      rw done (
        watch_rounds-Watches junk fd (λ j. has_fd j fds) ws l s (can fd known)
          (λ j. elim (Bool-cases (eq_ℤ j fd)) [
            | inl y ↦ watched j ∙ rw (y, (eq_ℤ_iff j fd).0 y) (known ∙ sym registered)
            | inr n ↦ watched j ∙ rw n refl
          ]))
