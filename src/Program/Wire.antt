-- ===== src/Program/Wire.antt =====
-- src/listeners.cpp, Listener::listenToSendPipe with src/net.cpp, TcpProtocol::sendData: what the
-- TCP socket is given.
use mathlib.Core.List.{map-append}
use tcp_udp_chat_server.Mail.Print.{Output}
use tcp_udp_chat_server.Serializer.{serialize}
use tcp_udp_chat_server.Program.Steps.{Reach}
use tcp_udp_chat_server.Program.State.{with_out, Program, start_program, took_one}
use tcp_udp_chat_server.Program.Sound.{IsSound}
use tcp_udp_chat_server.Program.Moves.{Move, Takes, listens, takes, waits, walks}
use tcp_udp_chat_server.Program.Keeps.{Reach-keeps, start_program-IsSound}
use tcp_udp_chat_server.Pipe.{Pipe}
use tcp_udp_chat_server.Net.{make_connection}
use tcp_udp_chat_server.MailBox.State.{tcp}
use tcp_udp_chat_server.Mail.Types.{MessageType}
use tcp_udp_chat_server.Listener.State.{Listener, make_listener}
use tcp_udp_chat_server.Listener.Hears.{ByTcp}
use tcp_udp_chat_server.Common.{List, [], arith, eq_ℤ, false, map, minus_one, refl, ◌∙◌, ◌≡◌}
use tcp_udp_chat_server.ArgumentParser.Parse.{Args}

-- All goes by TCP, and the socket was given the mails that were taken.
pub record IsWired (p : Program) : Type 0 where
  pub by_tcp : ByTcp p.listener
  pub sent_is : p.listener.connection.sent ≡ map (serialize false) p.taken

-- One more mail is taken, and its line is sent.
Takes-IsWired :
    (p : Program) (k : Listener) (o : List Output)
    → Takes p.listener k
    → IsWired p
    → IsWired (with_out o (took_one k p))
Takes-IsWired p k o t v = record {
  by_tcp = t.by_tcp v.by_tcp;
  sent_is = t.sent_is ∙ rw (v.by_tcp.connection_is, t.queue_is, map-append, v.sent_is) refl;
}

pub Move-IsWired : (p q : Program) → Move p q → IsSound p → IsWired p → IsWired q
Move-IsWired p q (waits m l o first is) _ v = rw is (record {
  by_tcp = record {
    protocol_is = v.by_tcp.protocol_is;
    connection_is = v.by_tcp.connection_is;
    none_awaited = v.by_tcp.none_awaited;
  };
  sent_is = v.sent_is;
})
Move-IsWired p q (walks g got d w is) _ v = rw is (record {
  by_tcp = record {
    protocol_is = v.by_tcp.protocol_is;
    connection_is = v.by_tcp.connection_is;
    none_awaited = v.by_tcp.none_awaited;
  };
  sent_is = v.sent_is;
})
Move-IsWired p q (listens k o h g is) _ v =
    let quiet = h.quiet v.by_tcp in
    rw is (record { by_tcp = quiet.by_tcp; sent_is = quiet.sent_is ∙ v.sent_is })
Move-IsWired p q (takes k o t is) _ v = rw is (Takes-IsWired p k o t v)

pub start_program-IsWired :
    (junk : MessageType) (a : Args) (pipe : Pipe)
    → a.type ≡ tcp
    → IsWired (start_program junk a pipe)
unfolding start_program make_listener make_connection
start_program-IsWired junk a pipe by = record {
  by_tcp = record { protocol_is = by; connection_is = ground arith; none_awaited = refl };
  sent_is = ground arith;
}

-- By TCP, in every state that the program can reach from a start with a pipe that can be written
-- into and holds nothing, in any order of the steps of its threads: the socket was given the
-- lines of the mails that were taken from the queue, in their order, one line for each mail and
-- nothing else.
pub program_wire :
    (junk : MessageType) (a : Args) (pipe : Pipe) (p : Program)
    → a.type ≡ tcp
    → eq_ℤ pipe.write_fd minus_one ≡ false
    → pipe.written ≡ []
    → Reach junk (start_program junk a pipe) p
    → p.listener.connection.sent ≡ map (serialize false) p.taken
program_wire junk a pipe p by fd empty r =
    (Reach-keeps junk _ p Move-IsWired r (start_program-IsSound junk a pipe fd empty)
      (start_program-IsWired junk a pipe by)).sent_is
