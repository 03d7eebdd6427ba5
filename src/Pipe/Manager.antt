-- ===== src/Pipe/Manager.antt =====
-- src/headers/pipes.h, class PipeManager, and the destructor of Pipe. Pipe has a destructor of its
-- own and so no move: `std::move` copies the descriptors, and the pipe that was copied closes them.
use tcp_udp_chat_server.Pipe.{
  FdType, Pipe, make_pipe, signal_pipe, socket_pipe, stdin_pipe, to_send_pipe, unknown_pipe, write,
}
use tcp_udp_chat_server.Common.{
  >>=-eq-ok, Bool, Bytes, List, Option, Result, [], arith, eq_ℤ, false, if◌then◌else◌, minus_one,
  none, ok, pipe_not_found, some, throw, true, ℤ, ◌++◌, ◌>>=◌, ◌∷◌, ◌≡◌,
}

-- `~Pipe`: what `close` is given, in order.
unfoldable pub close_pipe : Pipe → List ℤ
close_pipe p =
    (if eq_ℤ p.read_fd minus_one then [] else p.read_fd ∷ [])
    ++ (if eq_ℤ p.write_fd minus_one then [] else p.write_fd ∷ [])

abbrev same_type : FdType → FdType → Bool
same_type stdin_pipe stdin_pipe = true
same_type socket_pipe socket_pipe = true
same_type to_send_pipe to_send_pipe = true
same_type signal_pipe signal_pipe = true
same_type unknown_pipe unknown_pipe = true
same_type _ _ = false

-- The map of the pipes; `closed` is what `close` was given.
pub record PipeManager : Type 0 where
  pub pipes : List (FdType × Pipe)
  pub closed : List ℤ

-- `pipes.find(type)`
unfoldable pub find_pipe : FdType → List (FdType × Pipe) → Option Pipe
find_pipe type [] = none
find_pipe type ((t, p) ∷ rest) =
    let more = find_pipe type rest in if same_type type t then some p else more

-- `pipes[type] = pipe`, for a type that the map holds or not.
unfoldable pub put_pipe : FdType → Pipe → List (FdType × Pipe) → List (FdType × Pipe)
put_pipe type p [] = (type, p) ∷ []
put_pipe type p ((t, q) ∷ rest) =
    let more = put_pipe type p rest in if same_type type t then (t, p) ∷ rest else (t, q) ∷ more

-- Whether `pipes[type]` has to make a Pipe, with the answer of `::pipe` for it.
unfoldable pub make_missing : FdType → Option (ℤ × ℤ) → List (FdType × Pipe) → Result (Unit {0})
make_missing type fds pipes = elim (find_pipe type pipes) [
  | none ↦ make_pipe unknown_pipe fds >>= λ p. ok tt
  | some p ↦ ok tt
]

-- `addPipe`, with the answers of `::pipe` for `newPipe` and for the one that the map makes where it
-- has none; the descriptors of the latter are overwritten.
unfoldable pub add_pipe :
    FdType → Option (ℤ × ℤ) → Option (ℤ × ℤ) → PipeManager → Result PipeManager
add_pipe type new_fds spare_fds m = do
  new_pipe ← make_pipe unknown_pipe new_fds
  made ← make_missing type spare_fds m.pipes
  ok (record { pipes = put_pipe type new_pipe m.pipes; closed = m.closed ++ close_pipe new_pipe })

-- `writeToPipe`.
unfoldable pub write_to_pipe : FdType → Bytes → PipeManager → Result PipeManager
write_to_pipe type bytes m = elim (find_pipe type m.pipes) [
  | none ↦ throw pipe_not_found
  | some p ↦ write p bytes >>= λ q. ok (record m { pipes = put_pipe type q m.pipes })
]

find_pipe-put_pipe :
    (type : FdType) (p : Pipe) (pipes : List (FdType × Pipe))
    → find_pipe type (put_pipe type p pipes) ≡ some p
unfolding find_pipe put_pipe
find_pipe-put_pipe type p [] = ground arith
find_pipe-put_pipe type p ((t, q) ∷ rest) =
    let more = find_pipe-put_pipe type p rest in ground arith

-- The pipe that `addPipe` leaves under `type` is one whose descriptors have just been closed.
pub add_pipe-closed :
    (type : FdType) (new_fds spare_fds : Option (ℤ × ℤ)) (m n : PipeManager)
    → add_pipe type new_fds spare_fds m ≡ ok n
    → (p : Pipe) × (find_pipe type n.pipes ≡ some p) × (n.closed ≡ m.closed ++ close_pipe p)
unfolding add_pipe
add_pipe-closed type new_fds spare_fds m n e =
    let (p, made, q) = >>=-eq-ok (make_pipe unknown_pipe new_fds) _ e in
    let (u, spared, k) = >>=-eq-ok (make_missing type spare_fds m.pipes) _ q in
    let is = find_pipe-put_pipe type p m.pipes in (p, ground arith, ground arith)
