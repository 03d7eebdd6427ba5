-- ===== src/Program/Conversation/Talks.antt =====
-- src/main.cpp, runMain: the program while the conversation is open and nothing is under way, by
-- UDP.
use tcp_udp_chat_server.StdinListener.Delivery.{CanWrite}
use tcp_udp_chat_server.Program.State.{Program}
use tcp_udp_chat_server.Pipe.{Pipe}
use tcp_udp_chat_server.Listener.StillAwaits.{ByUdp}
use tcp_udp_chat_server.Listener.State.{Listener}
use tcp_udp_chat_server.Fsm.{at_open}
use tcp_udp_chat_server.Common.{Bytes, [], false, some, true, ◌++◌, ◌∙◌, ◌≡◌}

-- By UDP, in OPEN, with no mail in a queue, no CONFIRM awaited, a pipe that can be written to and a
-- kernel that takes what is sent.
pub record Talks (p : Program) : Type 0 where
  pub by_udp : ByUdp p.listener
  pub is_open : p.state ≡ at_open
  pub none_in : p.listener.mailbox.incoming_mails ≡ []
  pub none_out : p.listener.mailbox.outgoing_mails ≡ []
  pub none_awaited : p.listener.received_confirm ≡ true
  pub sends : p.listener.connection.send_fails ≡ false
  pub pipe : Pipe
  pub notifies : p.listener.mailbox.notify_listener_pipe ≡ some pipe
  pub can_write : CanWrite pipe

-- What follows of the handlers and of the mailbox is the same in another program.
pub same_protocol :
    (l k : Listener)
    → ByUdp l
    → k.protocol_type ≡ l.protocol_type
    → k.mailbox.delivery_service ≡ l.mailbox.delivery_service
    → k.connection.protocol ≡ l.connection.protocol
    → ByUdp k
same_protocol l k u a b c = record {
  protocol_is = a ∙ u.protocol_is;
  service_is = b ∙ u.service_is;
  connection_is = c ∙ u.connection_is;
}

pub wrote-CanWrite :
    (p : Pipe) (bytes : Bytes) → CanWrite p → CanWrite (record p { written = p.written ++ bytes })
wrote-CanWrite p bytes w = record { has_fd = w.has_fd; no_failure = w.no_failure }
