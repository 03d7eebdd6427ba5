-- ===== src/Mail/Valid.antt =====
-- What the constructors of the messages ensure of their fields.
use tcp_udp_chat_server.Common.{
  ℕ, ◌≤◌, ◌≡◌, ◌↔◌, Bool, true, false, [], ◌∷◌, Bytes, length, all, All, arith, ok, ℤ,
}
use tcp_udp_chat_server.Mail.Types.{
  AuthMessage, JoinMessage, ErrorMessage, TextMessage, ReplyMessage, MessageData, confirm_message,
  auth_message, join_message, error_message, bye_message, text_message, reply_message,
  unknown_message,
}
use tcp_udp_chat_server.Mail.Validate.{
  is_word, is_channel, is_graphic, is_printable, passes, make_auth, make_join, make_error,
  make_text, make_reply,
}

-- The fields of each message are as its constructor wants them.
unfoldable pub IsValid : MessageData → Type 0
IsValid (auth_message m) =
    (passes is_word 20 m.username ≡ true)
    × (passes is_graphic 20 m.display_name ≡ true)
    × (passes is_word 128 m.secret ≡ true)
IsValid (join_message m) =
    (passes is_channel 20 m.channel_id ≡ true) × (passes is_graphic 20 m.display_name ≡ true)
IsValid (error_message m) =
    (passes is_graphic 20 m.display_name ≡ true)
    × (passes is_printable 1400 m.message_content ≡ true)
IsValid (text_message m) =
    (passes is_graphic 20 m.display_name ≡ true)
    × (passes is_printable 1400 m.message_content ≡ true)
IsValid (reply_message m) = passes is_printable 1400 m.message_content ≡ true
IsValid (confirm_message m) = Unit {0}
IsValid (bye_message m) = Unit {0}
IsValid (unknown_message m) = Unit {0}

-- The two tests of `validateString` say the same, and the regular expression bounds the length.
pub passes_iff :
    (cls : ℕ → Bool) (max : ℕ) (s : Bytes)
    → (passes cls max s ≡ true) ↔ ((1 ≤ length s) × (length s ≤ max) × (all cls s ≡ true))
unfolding passes
passes_iff cls max s = (λ h. ground arith, λ h. ground arith)

all-All : (cls : ℕ → Bool) (s : Bytes) → all cls s ≡ true → All (λ c. cls c ≡ true) s
unfolding all
all-All cls [] h = tt
all-All cls (c ∷ s) h = (ground arith, all-All cls s (ground arith))

pub passes-All :
    (cls : ℕ → Bool) (max : ℕ) (s : Bytes) → passes cls max s ≡ true → All (λ c. cls c ≡ true) s
passes-All cls max s h = all-All cls s ((passes_iff cls max s).0 h).2

pub make_auth_ok :
    (id : ℕ) (u d s : Bytes)
    → IsValid
        (auth_message (record { message_id = id; username = u; display_name = d; secret = s }))
    → make_auth id u d s
      ≡ ok (record { message_id = id; username = u; display_name = d; secret = s })
unfolding IsValid make_auth
make_auth_ok id u d s v = ground arith

pub make_join_ok :
    (id : ℤ) (c d : Bytes)
    → IsValid (join_message (record { message_id = id; channel_id = c; display_name = d }))
    → make_join id c d ≡ ok (record { message_id = id; channel_id = c; display_name = d })
unfolding IsValid make_join
make_join_ok id c d v = ground arith

pub make_error_ok :
    (id : ℤ) (d c : Bytes)
    → IsValid (error_message (record { message_id = id; display_name = d; message_content = c }))
    → make_error id d c ≡ ok (record { message_id = id; display_name = d; message_content = c })
unfolding IsValid make_error
make_error_ok id d c v = ground arith

abbrev pub text_of : ℤ → Bytes → Bytes → TextMessage
text_of id d c = record { to_send = false; message_id = id; display_name = d; message_content = c }

pub make_text_ok :
    (id : ℤ) (d c : Bytes)
    → IsValid (text_message (text_of id d c))
    → make_text id d c ≡ ok (text_of id d c)
unfolding IsValid make_text
make_text_ok id d c v = ground arith

pub make_reply_ok :
    (id : ℤ) (r : Bool) (ref : ℤ) (c : Bytes)
    → passes is_printable 1400 c ≡ true
    → make_reply id r ref c
      ≡ ok (record { message_id = id; result = r; ref_message_id = ref; message_content = c })
unfolding make_reply
make_reply_ok id r ref c v = ground arith

-- A constructor that returns has made a valid message.
pub make_auth-IsValid :
    (id : ℕ) (u d s : Bytes) (m : AuthMessage)
    → make_auth id u d s ≡ ok m
    → IsValid (auth_message m)
unfolding IsValid make_auth
make_auth-IsValid id u d s m e = ground arith

pub make_join-IsValid :
    (id : ℤ) (c d : Bytes) (m : JoinMessage) → make_join id c d ≡ ok m → IsValid (join_message m)
unfolding IsValid make_join
make_join-IsValid id c d m e = ground arith

pub make_error-IsValid :
    (id : ℤ) (d c : Bytes) (m : ErrorMessage) → make_error id d c ≡ ok m → IsValid (error_message m)
unfolding IsValid make_error
make_error-IsValid id d c m e = ground arith

pub make_text-IsValid :
    (id : ℤ) (d c : Bytes) (m : TextMessage) → make_text id d c ≡ ok m → IsValid (text_message m)
unfolding IsValid make_text
make_text-IsValid id d c m e = ground arith

pub make_reply-IsValid :
    (id : ℤ) (r : Bool) (ref : ℤ) (c : Bytes) (m : ReplyMessage)
    → make_reply id r ref c ≡ ok m
    → IsValid (reply_message m)
unfolding IsValid make_reply
make_reply-IsValid id r ref c m e = ground arith
