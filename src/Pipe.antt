-- ===== src/Pipe.antt =====
-- src/headers/pipes.h, class Pipe. What the kernel answers is part of the value: `write_fails` says
-- whether `::write` returns -1.
pub mod Manager
use tcp_udp_chat_server.Common.{
  Bool, false, [], ◌++◌, Bytes, ℤ, minus_one, eq_ℤ, if◌then◌else◌, Option, none, some, Result, ok,
  throw, failed_to_write_pipe, failed_to_create_pipe,
}

pub data FdType : Type 0 where
  stdin_pipe socket_pipe to_send_pipe signal_pipe unknown_pipe : FdType

pub record Pipe : Type 0 where
  pub type : FdType
  pub read_fd : ℤ
  pub write_fd : ℤ
  pub write_fails : Bool
  pub written : Bytes

-- The constructor; the descriptors are the answer of `::pipe`, none where it fails.
unfoldable pub make_pipe : FdType → Option (ℤ × ℤ) → Result Pipe
make_pipe type none = throw failed_to_create_pipe
make_pipe type (some (read_fd, write_fd)) = ok (record {
  type = type;
  read_fd = read_fd;
  write_fd = write_fd;
  write_fails = false;
  written = [];
})

-- `Pipe::write`.
unfoldable pub write : Pipe → Bytes → Result Pipe
write p bytes =
    if eq_ℤ p.write_fd minus_one
    then ok p
    else if p.write_fails
    then throw failed_to_write_pipe
    else ok (record p { written = p.written ++ bytes })
