-- ===== src/Program/Datagrams.antt =====
-- src/listeners.cpp, Listener::listenToSendPipe with src/net.cpp, UdpProtocol::sendData: what the
-- UDP socket is given.
use mathlib.Core.List.{map-append}
use mathlib.Core.Path.{subst}
use tcp_udp_chat_server.Mail.Print.{Output}
use tcp_udp_chat_server.Serializer.{serialize}
use tcp_udp_chat_server.Program.Steps.{Reach}
use tcp_udp_chat_server.Program.State.{with_out, Program, start_program, took_one, with_listener}
use tcp_udp_chat_server.Program.Sound.{IsSound}
use tcp_udp_chat_server.Program.Numbers.{Numbered, Numbered-front, program-Numbered}
use tcp_udp_chat_server.Program.Moves.{Move, Takes, listens, takes, waits, walks}
use tcp_udp_chat_server.Program.Keeps.{Reach-keeps, start_program-IsSound}
use tcp_udp_chat_server.Pipe.{Pipe}
use tcp_udp_chat_server.Net.{make_connection}
use tcp_udp_chat_server.MailBox.State.{udp}
use tcp_udp_chat_server.Mail.Types.{MessageType}
use tcp_udp_chat_server.Listener.State.{Listener, make_listener}
use tcp_udp_chat_server.Listener.Grows.{Grows}
use tcp_udp_chat_server.Common.{
  List, [], append-nil, arith, eq_ℤ, false, map, minus_one, refl, true, ◌++◌, ◌∙◌, ◌∷◌, ◌≡◌,
}
use tcp_udp_chat_server.ArgumentParser.Parse.{Args}

-- The first list with elements put in between.
pub data Within {ℓ} {A : Type ℓ} : List A → List A → Type ℓ where
  nothing_left : Within [] []
  put_between : {xs ys : List A} → (a : A) → Within xs ys → Within xs (a ∷ ys)
  kept_first : {xs ys : List A} → (a : A) → Within xs ys → Within (a ∷ xs) (a ∷ ys)

module _ {ℓ} {A : Type ℓ} where
  Within-nil : (more : List A) → Within [] more
  Within-nil [] = nothing_left
  Within-nil (a ∷ more) = put_between a (Within-nil more)

  Within-append :
      {xs ys us vs : List A} → Within xs ys → Within us vs → Within (xs ++ us) (ys ++ vs)
  Within-append nothing_left w = w
  Within-append (put_between a v) w = put_between a (Within-append v w)
  Within-append (kept_first a v) w = kept_first a (Within-append v w)

  Within-more : (xs ys more : List A) → Within xs ys → Within xs (ys ++ more)
  Within-more xs ys more w =
      subst (λ l. Within l (ys ++ more)) (append-nil xs) (Within-append w (Within-nil more))

-- All goes by UDP, and the socket was given the mails that were taken.
record IsCarried (p : Program) : Type 0 where
  protocol_is : p.listener.connection.protocol ≡ udp
  carried : Within (map (serialize true) p.taken) p.listener.connection.sent

Takes-IsCarried :
    (p : Program) (k : Listener) (o : List Output)
    → Takes p.listener k
    → IsCarried p
    → IsCarried (with_out o (took_one k p))
Takes-IsCarried p k o t v = record {
  protocol_is = t.protocol_is ∙ v.protocol_is;
  carried =
      let sent : k.connection.sent ≡ p.listener.connection.sent ++ serialize true t.first ∷ [] =
        t.sent_is ∙ rw v.protocol_is refl in
      rw (sent, t.queue_is, map-append)
        (Within-append v.carried (kept_first (serialize true t.first) nothing_left));
}

Grows-IsCarried :
    (p : Program) (k : Listener) (o : List Output)
    → Grows p.listener.connection k.connection
    → IsCarried p
    → IsCarried (with_out o (with_listener k p))
Grows-IsCarried p k o g v = record {
  protocol_is = g.protocol_is ∙ v.protocol_is;
  carried = rw g.sent_is (Within-more _ p.listener.connection.sent g.more v.carried);
}

Move-IsCarried : (p q : Program) → Move p q → IsSound p → IsCarried p → IsCarried q
Move-IsCarried p q (waits m l o first is) _ v =
    rw is (record { protocol_is = v.protocol_is; carried = v.carried })
Move-IsCarried p q (walks g got d w is) _ v =
    rw is (record { protocol_is = v.protocol_is; carried = v.carried })
Move-IsCarried p q (listens k o h g is) _ v = rw is (Grows-IsCarried p k o g v)
Move-IsCarried p q (takes k o t is) _ v = rw is (Takes-IsCarried p k o t v)

start_program-IsCarried :
    (junk : MessageType) (a : Args) (pipe : Pipe)
    → a.type ≡ udp
    → IsCarried (start_program junk a pipe)
unfolding start_program make_listener make_connection
start_program-IsCarried junk a pipe by = record {
  protocol_is = ground arith;
  carried = Within-nil _;
}

-- By UDP, in every state that the program can reach from a start with a pipe that can be written
-- into and holds nothing, in any order of the steps of its threads: among the datagrams that the
-- socket was given are those of the mails that were taken from the queue, one for each and in
-- their order, and the ids of these mails are 0, 1, 2 and so on, with 0 again behind 65535.
pub program_datagrams :
    (junk : MessageType) (a : Args) (pipe : Pipe) (p : Program)
    → a.type ≡ udp
    → eq_ℤ pipe.write_fd minus_one ≡ false
    → pipe.written ≡ []
    → Reach junk (start_program junk a pipe) p
    → Within (map (serialize true) p.taken) p.listener.connection.sent × Numbered 0 p.taken
program_datagrams junk a pipe p by fd empty r = (
  (Reach-keeps junk _ p Move-IsCarried r (start_program-IsSound junk a pipe fd empty)
      (start_program-IsCarried junk a pipe by)).carried,
  Numbered-front 0 p.taken p.listener.mailbox.outgoing_mails
      (program-Numbered junk a pipe p by fd empty r),
)
