-- ===== src/Mail/Validate.antt =====
-- src/headers/mail-box.h, class Mail: the validators, and the constructors that call them.
-- `std::regex_match` is modelled for the one form of pattern that is used, `[class]{1,max}`.
use tcp_udp_chat_server.Common.{
  ℕ, Bool, false, not, ◌&&◌, ◌||◌, Bytes, length, all, ltb, leb, ◌==◌, Result, ok, ◌>>◌, guard,
  Field, username_field, secret_field, display_name_field, message_content_field, invalid, ℤ,
}
use tcp_udp_chat_server.Mail.Types.{
  AuthMessage, JoinMessage, ErrorMessage, TextMessage, ReplyMessage,
}

-- `[A-Za-z0-9\-]`
unfoldable pub is_word : ℕ → Bool
is_word c =
    leb b'A' c && leb c b'Z' || leb b'a' c && leb c b'z' || leb b'0' c && leb c b'9' || c == b'-'

-- `[A-Za-z0-9\-\.]`
unfoldable pub is_channel : ℕ → Bool
is_channel c = is_word c || c == b'.'

-- `[\x21-\x7E]`
unfoldable pub is_graphic : ℕ → Bool
is_graphic c = leb 0x21 c && leb c 0x7e

-- `[\x20-\x7E]`
unfoldable pub is_printable : ℕ → Bool
is_printable c = leb 0x20 c && leb c 0x7e

-- `regex_match` against `[cls]{1,max}`.
unfoldable pub regex_match : (ℕ → Bool) → ℕ → Bytes → Bool
regex_match cls max value = leb 1 (length value) && leb (length value) max && all cls value

-- The test of `validateString`: true where it does not throw.
unfoldable pub passes : (ℕ → Bool) → ℕ → Bytes → Bool
unfolding regex_match
passes cls max value = not (ltb max (length value) || not (regex_match cls max value))

abbrev pub validate_string : Bytes → (ℕ → Bool) → ℕ → Field → Result (Unit {0})
validate_string value cls max field = guard (passes cls max value) (invalid field)

abbrev pub validate_username : Bytes → Result (Unit {0})
validate_username username = validate_string username is_word 20 username_field

-- The error names the field "Username", as the source does.
abbrev pub validate_channel_id : Bytes → Result (Unit {0})
validate_channel_id channel_id = validate_string channel_id is_channel 20 username_field

abbrev pub validate_secret : Bytes → Result (Unit {0})
validate_secret secret = validate_string secret is_word 128 secret_field

abbrev pub validate_display_name : Bytes → Result (Unit {0})
validate_display_name display_name = validate_string display_name is_graphic 20 display_name_field

abbrev pub validate_message_content : Bytes → Result (Unit {0})
validate_message_content content = validate_string content is_printable 1400 message_content_field

-- The constructor `AuthMessage(id, username, displayName, secret)`.
unfoldable pub make_auth : ℕ → Bytes → Bytes → Bytes → Result AuthMessage
make_auth id username display_name secret = do
  validate_username username
  validate_display_name display_name
  validate_secret secret
  ok (record { message_id = id; username = username; display_name = display_name; secret = secret })

unfoldable pub make_join : ℤ → Bytes → Bytes → Result JoinMessage
make_join id channel_id display_name = do
  validate_channel_id channel_id
  validate_display_name display_name
  ok (record { message_id = id; channel_id = channel_id; display_name = display_name })

unfoldable pub make_error : ℤ → Bytes → Bytes → Result ErrorMessage
make_error id display_name content = do
  validate_display_name display_name
  validate_message_content content
  ok (record { message_id = id; display_name = display_name; message_content = content })

unfoldable pub make_text : ℤ → Bytes → Bytes → Result TextMessage
make_text id display_name content = do
  validate_display_name display_name
  validate_message_content content
  ok (record {
    to_send = false;
    message_id = id;
    display_name = display_name;
    message_content = content;
  })

unfoldable pub make_reply : ℤ → Bool → ℤ → Bytes → Result ReplyMessage
make_reply id result ref content = do
  validate_message_content content
  ok (record { message_id = id; result = result; ref_message_id = ref; message_content = content })
