-- ===== src/Listener/Watches.antt =====
-- src/listeners.cpp, Listener::runListener: epoll watches what the members of the class say, and no
-- `epoll_ctl` of the loop fails.
use tcp_udp_chat_server.Listener.State.{Listener}
use tcp_udp_chat_server.Listener.Loop.{toggle_to_send}
use tcp_udp_chat_server.Pipe.{FdType}
use tcp_udp_chat_server.Listener.Epoll.{
  Epoll, IsLawful, register_fd, register_fds, toggle_watch, unregister_fd, FdMap, add_fd, add_fds,
}
use tcp_udp_chat_server.Common.{
  some, ◌∙◌, ok, true, Bool, Bool-cases, List, [], arith, eq_ℤ, eq_ℤ_iff, false, inl, inr, negsuc,
  pos, refl, ℤ, ◌||◌, ◌∷◌, ◌≡◌,
}

-- Whether the map holds a descriptor.
unfoldable pub has_fd : ℤ → FdMap → Bool
has_fd j [] = false
has_fd j ((k, t) ∷ rest) = eq_ℤ j k || has_fd j rest

-- No descriptor stands in the map twice.
pub Distinct : FdMap → Type 0
Distinct [] = Unit
Distinct ((k, t) ∷ rest) = (has_fd k rest ≡ false) × Distinct rest

pub has_fd-add_fd :
    (j fd : ℤ) (type : FdType) (fds : FdMap)
    → has_fd j (add_fd fd type fds) ≡ (eq_ℤ j fd || has_fd j fds)
unfolding has_fd add_fd
has_fd-add_fd j fd type [] = refl
has_fd-add_fd j fd type ((k, t) ∷ rest) = elim (Bool-cases (eq_ℤ fd k)) [
  | inl y ↦ let same : fd ≡ k = (eq_ℤ_iff fd k).0 y in ground arith
  | inr n ↦ let more = has_fd-add_fd j fd type rest in ground arith
]

eq_ℤ_sym : (a b : ℤ) → eq_ℤ a b ≡ eq_ℤ b a
eq_ℤ_sym (pos a) (pos b) = ground arith
eq_ℤ_sym (negsuc a) (negsuc b) = ground arith
eq_ℤ_sym (pos a) (negsuc b) = refl
eq_ℤ_sym (negsuc a) (pos b) = refl

add_fd-Distinct :
    (fd : ℤ) (type : FdType) (fds : FdMap) → Distinct fds → Distinct (add_fd fd type fds)
unfolding has_fd add_fd Distinct
add_fd-Distinct fd type [] d = (refl, tt)
add_fd-Distinct fd type ((k, t) ∷ rest) d = elim (Bool-cases (eq_ℤ fd k)) [
  | inl y ↦ rw (y) d
  | inr n ↦
      let more = add_fd-Distinct fd type rest d.1 in
      let fresh = has_fd-add_fd k fd type rest in
      let other = eq_ℤ_sym fd k in rw n (ground arith, more)
]

pub no_fds : Distinct []
unfolding Distinct
no_fds = tt

pub add_fds-Distinct :
    (adds : List (ℤ × FdType)) (fds : FdMap) → Distinct fds → Distinct (add_fds adds fds)
unfolding add_fds
add_fds-Distinct [] fds d = d
add_fds-Distinct ((fd, type) ∷ more) fds d =
    add_fds-Distinct more (add_fd fd type fds) (add_fd-Distinct fd type fds d)

module _ (E : Epoll) (lawful : IsLawful E) where
  register_fd-adds :
      (fd : ℤ) (s t : E.Interest) → E.ctl_add fd s ≡ some t → register_fd E fd s ≡ ok t
  unfolding register_fd
  register_fd-adds fd s t e = ground arith

  unregister_fd-deletes :
      (fd : ℤ) (s t : E.Interest) → E.ctl_del fd s ≡ some t → unregister_fd E fd s ≡ ok t
  unfolding unregister_fd
  unregister_fd-deletes fd s t e = ground arith

  -- Registering the descriptors of a map, none of which is watched yet, watches them.
  pub register_fds-watches :
      (fds : FdMap) (s : E.Interest)
      → Distinct fds
      → ((j : ℤ) → has_fd j fds ≡ true → E.can_watch j ≡ true)
      → ((j : ℤ) → has_fd j fds ≡ true → E.watches j s ≡ false)
      → (t : E.Interest) × (register_fds E fds s ≡ ok t)
        × ((j : ℤ) → E.watches j t ≡ (has_fd j fds || E.watches j s))
  unfolding register_fds has_fd Distinct
  register_fds-watches [] s d can free = (s, refl, λ j. refl)
  register_fds-watches ((fd, type) ∷ rest) s d can free =
      let self = (eq_ℤ_iff fd fd).1 refl in
      let known : has_fd fd ((fd, type) ∷ rest) ≡ true = ground arith in
      let (t, added, after) = lawful.ctl_add_lem fd s (can fd known) (free fd known) in
      let registered = register_fd-adds fd s t added in
      let still : (j : ℤ) → has_fd j rest ≡ true → E.watches j t ≡ false = λ j h.
        elim (Bool-cases (eq_ℤ j fd)) [
          | inl y ↦ let same : j ≡ fd = (eq_ℤ_iff j fd).0 y in absurd (ground (arith, d.0))
          | inr n ↦ let now = after j in let before = free j (ground arith) in ground arith
        ] in
      let (u, done, all_of) = register_fds-watches rest t d.1 (λ j h. can j (ground arith)) still in
      (u, rw registered done, λ j. let now = after j in let then_on = all_of j in ground arith)

  -- The top of a round, where epoll watches `fd` as the member says: it succeeds, does to the
  -- listener what `toggle_to_send` does, and leaves the other descriptors alone.
  pub toggle_watch-toggles :
      (fd : ℤ) (l : Listener) (s : E.Interest)
      → E.can_watch fd ≡ true
      → E.watches fd s ≡ l.to_send_registered
      → (t : E.Interest) × (toggle_watch E fd l s ≡ ok (toggle_to_send l, t))
        × (E.watches fd t ≡ (toggle_to_send l).to_send_registered)
        × ((j : ℤ) → eq_ℤ j fd ≡ false → E.watches j t ≡ E.watches j s)
  unfolding toggle_watch toggle_to_send
  toggle_watch-toggles fd l s can agrees =
      by_flags l.received_confirm l.to_send_registered refl refl
    where
      by_flags :
          (c r : Bool)
          → l.received_confirm ≡ c
          → l.to_send_registered ≡ r
          → (t : E.Interest) × (toggle_watch E fd l s ≡ ok (toggle_to_send l, t))
            × (E.watches fd t ≡ (toggle_to_send l).to_send_registered)
            × ((j : ℤ) → eq_ℤ j fd ≡ false → E.watches j t ≡ E.watches j s)
      by_flags false true c r =
          let (t, gone, after) = lawful.ctl_del_lem fd s can (agrees ∙ r) in
          let done = unregister_fd-deletes fd s t gone in
          let self = (eq_ℤ_iff fd fd).1 refl in
          let now = after fd in
          (t, ground arith, ground arith, λ j n. let then_on = after j in ground arith)
      by_flags true false c r =
          let (t, added, after) = lawful.ctl_add_lem fd s can (agrees ∙ r) in
          let done = register_fd-adds fd s t added in
          let self = (eq_ℤ_iff fd fd).1 refl in
          let now = after fd in
          (t, ground arith, ground arith, λ j n. let then_on = after j in ground arith)
      by_flags true true c r = (s, ground arith, ground arith, λ j n. refl)
      by_flags false false c r = (s, ground arith, ground arith, λ j n. refl)
