-- ===== src/Program/Main.antt =====
-- src/main.cpp: main, and runMain up to the start of the threads.
use tcp_udp_chat_server.ArgumentParser.Numbers.{stoi}
use tcp_udp_chat_server.Program.State.{Program, start_program}
use tcp_udp_chat_server.Pipe.{FdType, Pipe, make_pipe, signal_pipe, stdin_pipe, to_send_pipe}
use tcp_udp_chat_server.Net.Socket.{open_or_throw}
use tcp_udp_chat_server.MailBox.State.{ProtocolType}
use tcp_udp_chat_server.Mail.Types.{MessageType}
use tcp_udp_chat_server.Mail.Print.{Output, cerr, endl}
use tcp_udp_chat_server.Common.{
  none, some, >>=-eq-ok, arith, inl, inr, refl, ◌≡◌, ◌⊎◌, Bool, Bytes, Error, List, Option, Result,
  [], bad_variant_access, codes, minus_one, not_a_number, number_out_of_range, ok, out_of_bounds,
  pos, throw, usage_shown, ℕ, ℤ, ◌++◌, ◌>>=◌, ◌∷◌,
}
use tcp_udp_chat_server.ArgumentParser.Parse.{Args, parse_option, parse_options, make_args, parse}

-- `runMain` up to `fsm.run()`: the options that `getopt` gives, the answers of `socket`,
-- `gethostbyname` and `connect`, and those of `::pipe` for the pipes of the keyboard, of the mails
-- to send and of the signals. `service` is the protocol that is in the arguments before any option.
unfoldable pub boot :
    MessageType
    → ProtocolType
    → List (ℕ × Bytes)
    → (ℤ × Bool × Bool)
    → (Option (ℤ × ℤ) × Option (ℤ × ℤ) × Option (ℤ × ℤ))
    → Result Program
boot junk service options (given, resolves, connects) (x, y, z) = do
  args ← parse options (make_args service)
  socket ←
      open_or_throw given resolves connects
        (record { protocol = args.type; sockfd = minus_one; closed = [] })
  my_pipe ← make_pipe stdin_pipe x
  send_pipe ← make_pipe to_send_pipe y
  other_pipe ← make_pipe signal_pipe z
  ok (start_program junk args send_pipe)

-- How the process ends: `main` returns, `exit` was called, an exception was not caught, or the
-- behaviour is undefined.
pub data Ending : Type 0 where
  returned_with : ℤ → List Output → Ending
  exited : ℤ → Ending
  aborted undefined : Ending

-- The `catch` of `main`, which is for std::runtime_error. `what` is the text of an exception.
-- std::bad_variant_access, std::invalid_argument and std::out_of_range are none.
unfoldable pub caught : (Error → Bytes) → Error → Ending
caught what bad_variant_access = aborted
caught what not_a_number = aborted
caught what number_out_of_range = aborted
caught what usage_shown = exited (pos 1)
caught what out_of_bounds = undefined
caught what problem = returned_with minus_one (cerr (codes "ERR: " ++ what problem ++ endl) ∷ [])

-- `main`, with what `runMain` gives.
unfoldable pub main_end : (Error → Bytes) → Result ℤ → Ending
main_end what (ok n) = returned_with n []
main_end what (throw problem) = caught what problem

-- What `parse` does behind options that it takes.
parse_options-append :
    (os more : List (ℕ × Bytes)) (a b : Args)
    → parse_options os a ≡ ok b
    → parse_options (os ++ more) a ≡ parse_options more b
unfolding parse_options
parse_options-append [] more a b e = ground arith
parse_options-append (o ∷ os) more a b e =
    let (c, p, q) = >>=-eq-ok (parse_option o.0 o.1 a) _ e in
    rw p (parse_options-append os more c b q)

stoi_throws :
    (port_text : Bytes) (problem : Error)
    → stoi port_text ≡ throw problem
    → (problem ≡ not_a_number) ⊎ (problem ≡ number_out_of_range)
unfolding stoi
stoi_throws port_text problem e = ground arith

boot-bad_port :
    (junk : MessageType) (service : ProtocolType) (before after : List (ℕ × Bytes)) (b : Args)
    (port_text : Bytes) (problem : Error) (net : ℤ × Bool × Bool)
    (pipes : Option (ℤ × ℤ) × Option (ℤ × ℤ) × Option (ℤ × ℤ))
    → parse_options before (make_args service) ≡ ok b
    → stoi port_text ≡ throw problem
    → boot junk service (before ++ (b'p', port_text) ∷ after) net pipes ≡ throw problem
unfolding boot parse parse_option parse_options
boot-bad_port junk service before after b port_text problem net pipes e bad =
    rw (parse_options-append before ((b'p', port_text) ∷ after) (make_args service) b e, bad) refl

-- Where the options before a -p are in order, and std::stoi finds no number in the text of this -p,
-- or one that is no `int`: whatever comes behind it, and whatever the program would do then, the
-- exception is not caught, and the process aborts.
pub bad_port_aborts :
    (junk : MessageType) (service : ProtocolType) (before after : List (ℕ × Bytes)) (b : Args)
    (port_text : Bytes) (problem : Error) (net : ℤ × Bool × Bool)
    (pipes : Option (ℤ × ℤ) × Option (ℤ × ℤ) × Option (ℤ × ℤ)) (what : Error → Bytes)
    (rest : Program → Result ℤ)
    → parse_options before (make_args service) ≡ ok b
    → stoi port_text ≡ throw problem
    → main_end what (boot junk service (before ++ (b'p', port_text) ∷ after) net pipes >>= rest)
      ≡ aborted
unfolding main_end caught
bad_port_aborts junk service before after b port_text problem net pipes what rest e bad =
    rw (boot-bad_port junk service before after b port_text problem net pipes e bad)
      (elim (stoi_throws port_text problem bad) [ inl s ↦ rw s refl | inr s ↦ rw s refl ])

fresh_pipe :
    (t : FdType) (fds : Option (ℤ × ℤ)) (pipe : Pipe)
    → make_pipe t fds ≡ ok pipe
    → pipe.written ≡ []
unfolding make_pipe
fresh_pipe t none pipe e = cc
fresh_pipe t (some (r, w)) pipe e = ground arith

-- What `boot` leaves is the start that the steps of the threads begin at, with a pipe that holds
-- nothing.
pub boot-starts :
    (junk : MessageType) (service : ProtocolType) (options : List (ℕ × Bytes)) (p : Program)
    (given : ℤ) (resolves connects : Bool) (x y z : Option (ℤ × ℤ))
    → boot junk service options (given, resolves, connects) (x, y, z) ≡ ok p
    → (a : Args) × (pipe : Pipe) × (parse options (make_args service) ≡ ok a)
      × (make_pipe to_send_pipe y ≡ ok pipe)
      × (pipe.written ≡ [])
      × (p ≡ start_program junk a pipe)
unfolding boot
boot-starts junk service options p given resolves connects x y z e =
    let (a, p1, q1) = >>=-eq-ok (parse options (make_args service)) _ e in
    let (s, p2, q2) = >>=-eq-ok (open_or_throw given resolves connects _) _ q1 in
    let (t, p3, q3) = >>=-eq-ok (make_pipe stdin_pipe x) _ q2 in
    let (pipe, p4, q4) = >>=-eq-ok (make_pipe to_send_pipe y) _ q3 in
    let (u, p5, q5) = >>=-eq-ok (make_pipe signal_pipe z) _ q4 in
    (a, pipe, p1, p4, fresh_pipe to_send_pipe y pipe p4, ground arith)
