-- ===== src/Tests/Closing.antt =====
-- The beginning and the end of runMain, and the log of a datagram.
use tcp_udp_chat_server.Streams.{is_space}
use tcp_udp_chat_server.ArgumentParser.Numbers.{is_digit, read_unsigned, starts_with_digit}
use tcp_udp_chat_server.Streams.{skip_space}
use tcp_udp_chat_server.Program.Main.{aborted, bad_port_aborts, boot, main_end}
use tcp_udp_chat_server.Mail.Types.{msg}
use tcp_udp_chat_server.ArgumentParser.Parse.{
  Args, make_args, parse_option, parse_options, parse_type,
}
use tcp_udp_chat_server.ArgumentParser.Numbers.{read_signed, stoi}
use tcp_udp_chat_server.Program.Shutdown.{closed_three_times, count, main_fds, shut_down}
use tcp_udp_chat_server.Pipe.{FdType, Pipe, signal_pipe, stdin_pipe, to_send_pipe}
use tcp_udp_chat_server.Net.Socket.{
  Socket, close_connection, destroy, open_or_throw, open_or_throw-closed_once,
}
use tcp_udp_chat_server.Net.Hex.{convert_buffer_to_hex_string}
use tcp_udp_chat_server.MailBox.State.{tcp, udp}
use tcp_udp_chat_server.Listener.Watches.{has_fd}
use tcp_udp_chat_server.Listener.Epoll.{add_fd, add_fds}
use tcp_udp_chat_server.Common.{
  beq, codes, not_a_number, some, throw, ◌>>=◌, [], false, leb_ℤ, minus_one, ok, pos, refl, true, ℕ,
  ◌++◌, ◌+◌, ◌↔◌, ◌∷◌, ◌≡◌, ◌≤◌, ◌⊎◌,
}

abbrev unopened : Socket
unopened = record { protocol = tcp; sockfd = minus_one; closed = [] }

open_or_throw-closed_once_example :
    ((open_or_throw (pos 3) true true unopened ≡ ok (record unopened { sockfd = pos 3 })) ↔ (
      (record unopened { sockfd = pos 3 } ≡ record unopened { sockfd = pos 3 })
      × (leb_ℤ (pos 0) (pos 3) ≡ true)
      × (true ≡ true)
      × ((tcp ≡ udp) ⊎ (true ≡ true))))
    × ((destroy (close_connection (close_connection (record unopened { sockfd = pos 3 })))).closed
        ≡ pos 3 ∷ [])
open_or_throw-closed_once_example =
    open_or_throw-closed_once (pos 3) true true unopened (record unopened { sockfd = pos 3 })

abbrev pipe_of : FdType → ℕ → Pipe
pipe_of t n = record {
  type = t;
  read_fd = pos n;
  write_fd = pos (n + 1);
  write_fails = false;
  written = [];
}

abbrev opened_socket : Socket
opened_socket = record unopened { sockfd = pos 3 }

closed_three_times_example :
    3
    ≤ count (pos 3) (
        shut_down
          (main_fds opened_socket
            (pipe_of stdin_pipe 4)
            (pipe_of to_send_pipe 6)
            (pipe_of signal_pipe 8))
          opened_socket
          (pipe_of stdin_pipe 4)
          (pipe_of to_send_pipe 6)
          (pipe_of signal_pipe 8))
unfolding has_fd add_fds add_fd
closed_three_times_example =
    closed_three_times (pos 3) opened_socket (pipe_of stdin_pipe 4) (pipe_of to_send_pipe 6)
      (pipe_of signal_pipe 8) refl refl

hex_log : convert_buffer_to_hex_string (0 ∷ 255 ∷ []) ≡ codes "00ff"
unfolding convert_buffer_to_hex_string
hex_log = refl

abbrev udp_given : Args
udp_given = record (make_args tcp) { type = udp; type_set = true }

given_udp : parse_options ((b't', codes "udp") ∷ []) (make_args tcp) ≡ ok udp_given
unfolding parse_options parse_option parse_type make_args beq
given_udp = refl

no_port : stoi (codes "chat") ≡ throw not_a_number
unfolding stoi read_signed skip_space is_space read_unsigned starts_with_digit is_digit
no_port = refl

bad_port_aborts_example :
    main_end
      (λ problem. [])
      (boot msg tcp
          ((b't', codes "udp") ∷ [] ++ (b'p', codes "chat") ∷ (b's', codes "localhost") ∷ [])
          (pos 3, true, true)
          (some (pos 4, pos 5), some (pos 6, pos 7), some (pos 8, pos 9))
        >>= λ p. ok (pos 0))
    ≡ aborted
bad_port_aborts_example =
    bad_port_aborts msg tcp ((b't', codes "udp") ∷ []) ((b's', codes "localhost") ∷ []) udp_given
      (codes "chat") not_a_number (pos 3, true, true)
      (some (pos 4, pos 5), some (pos 6, pos 7), some (pos 8, pos 9)) (λ problem. [])
      (λ p. ok (pos 0)) given_udp no_port
