-- ===== src/Program/Conversation/Unheard.antt =====
-- src/main.cpp, runMain: a message of the user whose number is not read as it is, by UDP.
use tcp_udp_chat_server.Mail.Print.{cerr, endl}
use tcp_udp_chat_server.Listener.Thread.{
  listener_thread, process_exits, run_listener-timeouts, thread_gives_up,
}
use tcp_udp_chat_server.Listener.Loop.{timed_out}
use tcp_udp_chat_server.Listener.Hang.{run_listener}
use tcp_udp_chat_server.Serializer.{serialize}
use tcp_udp_chat_server.Program.Turns.{heard-eq, run_turns, turn-then, turns_over}
use tcp_udp_chat_server.Program.State.{Program, with_listener}
use tcp_udp_chat_server.Program.Shutdown.{count}
use tcp_udp_chat_server.Program.Conversation.Talks.{Talks}
use tcp_udp_chat_server.Program.Conversation.Says.{
  saying, saying-sent_off, sent_off, sent_off-ByUdp,
}
use tcp_udp_chat_server.Program.Conversation.Lines.{IsText, said_as}
use tcp_udp_chat_server.Program.Conversation.Confirms.{confirm-unheard}
use tcp_udp_chat_server.MailBox.Udp.Word.{as_read_fixed}
use tcp_udp_chat_server.MailBox.Udp.RoundTrip.{as_sent}
use tcp_udp_chat_server.Mail.Types.{MessageType, data_message_id}
use tcp_udp_chat_server.Listener.State.{Listener}
use tcp_udp_chat_server.Listener.Retry.{Waits, timeouts_resend}
use tcp_udp_chat_server.Common.{
  Error, codes, ◌∷◌, Bytes, [], arith, false, inl, inr, ok, pos, refl, replicate,
  server_not_responding, suc, to_uint16, true, u16_mod, ℕ, ◌%◌, ◌++◌, ◌+◌, ◌<◌, ◌∙◌, ◌≡◌, ◌≢◌, ◌≤◌,
}

not_read_back : (n : ℕ) → 128 ≤ n % 256 → n < 0xff00 → as_sent (pos n) ≢ n
unfolding to_uint16
not_read_back n low high e =
    let whole : n % u16_mod ≡ n = omega arith in
    elim ((as_read_fixed n (omega arith)).0 (rw whole at e)) [
      | inl small ↦ omega arith
      | inr big ↦ omega arith
    ]

-- By UDP, in an open conversation in which no mail is in a queue, no CONFIRM is awaited, the pipe
-- can be written to and the kernel takes what is sent, with a number below 0xff00 whose low byte is
-- 128 or more: where the user types a line that is a message of at most 1022 bytes under a valid
-- name, the state machine makes a round, the listener sends the MSG, and the CONFIRM of just that
-- number comes, while the host's name still resolves, nothing throws, but the CONFIRM is still
-- awaited. One timeout more than the retries that are left then makes the listener's thread print
-- the text of "Server not responding" and end the process with the exit code 1, and the timeouts
-- before it each send the MSG again.
pub unheard_confirm :
    (what : Error → Bytes) (junk : MessageType) (line : Bytes) (port left limit : ℕ) (p : Program)
    → Talks p
    → IsText line p.listener.mailbox.display_name
    → 128 ≤ p.listener.mailbox.sequence_udp_number % 256
    → p.listener.mailbox.sequence_udp_number < 0xff00
    → p.listener.connection.retries ≡ pos limit
    → p.listener.retries + left ≡ limit
    → (q : Program) × (run_turns junk (saying line port p.listener.mailbox.sequence_udp_number) p
        ≡ ok q)
      × (q.listener.received_confirm ≡ false)
      × (listener_thread what junk (replicate (suc left) timed_out) q.listener
          ≡ process_exits (pos 1) (cerr (codes "ERR: " ++ what server_not_responding ++ endl) ∷ []))
      × ((k : Listener) × (run_listener junk (replicate left timed_out) q.listener ≡ ok k)
          × (k.connection.sent
              ≡ q.listener.connection.sent
                ++ replicate left (
                    serialize true (
                      said_as junk line p.listener.mailbox.display_name
                        p.listener.mailbox.sequence_udp_number))))
unfolding data_message_id
unheard_confirm what junk line port left limit p t x low high r o =
    let n = p.listener.mailbox.sequence_udp_number in
    let c = sent_off junk line t.pipe p in
    let l = record c.listener { connection = record c.listener.connection { port = port } } in
    let q = with_listener l c in
    let unread : as_sent (pos n) ≢ n = not_read_back n low high in
    let waits : Waits limit l = record { waiting = refl; limit_is = r; can_send = t.sends } in
    let (k, runs, count, sent, w) = timeouts_resend junk left limit l waits (omega arith) in
    (
      q,
      saying-sent_off junk line port p [] (ok q) t x (
          turn-then junk _ _ c q (ok q)
            (heard-eq junk _ c l
              (confirm-unheard junk n port c.listener (sent_off-ByUdp junk line p t) refl unread))
            (turns_over junk q)),
      refl,
      thread_gives_up what junk left limit l waits o,
      (
        k,
        run_listener-timeouts junk left limit l waits ∙ runs,
        sent ∙ rw (t.by_udp.connection_is) refl,
      ),
    )
