-- ===== src/Fsm/Arcs.antt =====
-- The protocol that FSM::run keeps to, as a relation of its own.
use tcp_udp_chat_server.Mail.Types.{
  MessageData, auth_message, bye_message, confirm_message, error_message, join_message,
  unknown_message, Mail, MessageType, ReplyMessage, TextMessage, auth, bye, confirm, err, join, msg,
  reply, reply_message, text_message, unknown,
}
use tcp_udp_chat_server.Fsm.{State, at_auth, at_end, at_error, at_open, at_start}
use tcp_udp_chat_server.Common.{
  Bool, Bytes, codes, pos, ℕ, List, Option, [], false, none, some, true, ◌∷◌, ◌≡◌, ◌≢◌, ◌⊎◌,
}

-- `Arc s got sent t`: in state `s` the mail `got` (none in ERROR, which waits for no mail) leads to
-- state `t`, and mails of the types `sent` are sent meanwhile.
pub data Arc : State → Option Mail → List MessageType → State → Type 0 where
  -- a first AUTH, and any further one until the server agrees
  asks :
      {s : State} (m : Mail)
      → (s ≡ at_start) ⊎ (s ≡ at_auth)
      → m.type ≡ auth
      → Arc s (some m) (auth ∷ []) at_auth
  -- only a positive REPLY in AUTH opens the conversation
  granted :
      (m : Mail) (r : ReplyMessage)
      → m.type ≡ reply
      → m.payload ≡ reply_message r
      → r.result ≡ true
      → Arc at_auth (some m) [] at_open
  denied :
      (m : Mail) (r : ReplyMessage)
      → m.type ≡ reply
      → m.payload ≡ reply_message r
      → r.result ≡ false
      → Arc at_auth (some m) [] at_auth
  -- too early: nothing is sent
  early :
      {s : State} (m : Mail)
      → (s ≡ at_start) ⊎ (s ≡ at_auth)
      → (m.type ≡ msg) ⊎ (m.type ≡ join)
      → Arc s (some m) [] s
  -- the conversation
  says :
      (m : Mail) (t : TextMessage)
      → m.type ≡ msg
      → m.payload ≡ text_message t
      → t.to_send ≡ true
      → Arc at_open (some m) (msg ∷ []) at_open
  hears :
      (m : Mail) (t : TextMessage)
      → m.type ≡ msg
      → m.payload ≡ text_message t
      → t.to_send ≡ false
      → Arc at_open (some m) [] at_open
  ignores : (m : Mail) → (m.type ≡ reply) ⊎ (m.type ≡ auth) → Arc at_open (some m) [] at_open
  joins : (m : Mail) → m.type ≡ join → Arc at_open (some m) (join ∷ []) at_open
  -- the ends
  dismissed : (m : Mail) → m.type ≡ bye → Arc at_open (some m) [] at_end
  interrupted :
      (m : Mail) → m.type ≡ err → m.sigint ≡ true → Arc at_start (some m) (bye ∷ []) at_end
  leaves :
      {s : State} (m : Mail)
      → (s ≡ at_auth) ⊎ (s ≡ at_open)
      → m.type ≡ err
      → Arc s (some m) (bye ∷ []) at_end
  -- what a state does not expect is answered by ERR
  complains_start :
      (m : Mail)
      → m.type ≢ auth
      → m.type ≢ msg
      → m.type ≢ join
      → (m.type ≡ err → m.sigint ≡ false)
      → Arc at_start (some m) (err ∷ []) at_error
  complains :
      {s : State} (m : Mail)
      → (s ≡ at_auth) × (m.type ≡ bye)
        ⊎ (((s ≡ at_auth) ⊎ (s ≡ at_open)) × ((m.type ≡ confirm) ⊎ (m.type ≡ unknown)))
      → Arc s (some m) (err ∷ []) at_error
  gives_up : Arc at_error none (bye ∷ []) at_end

-- The data of a message under another id.
abbrev pub with_id : ℕ → MessageData → MessageData
with_id n (auth_message m) = auth_message (record m { message_id = n })
with_id n (join_message m) = join_message (record m { message_id = pos n })
with_id n (error_message m) = error_message (record m { message_id = pos n })
with_id n (bye_message m) = bye_message (record m { message_id = pos n })
with_id n (text_message m) = text_message (record m { message_id = pos n })
with_id n (reply_message m) = reply_message (record m { message_id = pos n })
with_id n (confirm_message m) = confirm_message m
with_id n (unknown_message m) = unknown_message m

-- The types of the mails that FSM::run passes on as they are.
abbrev pub is_said : MessageType → Bool
is_said auth = true
is_said msg = true
is_said join = true
is_said _ = false

-- What a mail that is sent holds, with `got` at hand, `n` the number of the mailbox and `name` its
-- display name: it is the one at hand, under the number, or the client's own BYE or ERR.
pub data IsSent (got : Option Mail) (n : ℕ) (name : Bytes) (one : Mail) : Type 0 where
  the_same :
      (m : Mail)
      → got ≡ some m
      → is_said m.type ≡ true
      → one ≡ record m { payload = with_id n m.payload }
      → IsSent got n name one
  own_bye :
      one.type ≡ bye
      → one.payload ≡ bye_message (record { message_id = pos n })
      → IsSent got n name one
  own_err :
      one.type ≡ err
      → one.payload
        ≡ error_message (record {
          message_id = pos n;
          display_name = name;
          message_content = codes "MessageContent";
        })
      → IsSent got n name one
