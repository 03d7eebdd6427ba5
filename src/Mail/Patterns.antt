-- ===== src/Mail/Patterns.antt =====
-- src/headers/net-utils.h, ParamRegex and regexPatterns: the patterns as they are documented there,
-- against the validators of src/headers/mail-box.h.
use tcp_udp_chat_server.Mail.Validate.{
  is_graphic, is_printable, is_word, regex_match, validate_channel_id, validate_display_name,
  validate_message_content, validate_secret, validate_username,
}
use tcp_udp_chat_server.Common.{[], false, ◌||◌, ◌∷◌, Bool, Bytes, Result, ℕ, ◌==◌}

pub data ParamRegex : Type 0 where
  username_param channel_id_param secret_param display_name_param message_content_param : ParamRegex

-- `regexPatterns`: the class of each pattern, and how many characters it takes at most; each takes
-- one at least.
unfoldable pub regex_patterns : ParamRegex → (ℕ → Bool) × ℕ
regex_patterns username_param = (is_word, 20)
regex_patterns channel_id_param = (is_word, 20)
regex_patterns secret_param = (is_word, 128)
regex_patterns display_name_param = (is_graphic, 20)
regex_patterns message_content_param = (is_printable, 1400)

-- Whether a text matches the pattern.
unfoldable pub matches : ParamRegex → Bytes → Bool
matches p text = regex_match (regex_patterns p).0 (regex_patterns p).1 text

-- The validator of each parameter.
unfoldable pub validate : ParamRegex → Bytes → Result (Unit {0})
validate username_param text = validate_username text
validate channel_id_param text = validate_channel_id text
validate secret_param text = validate_secret text
validate display_name_param text = validate_display_name text
validate message_content_param text = validate_message_content text

unfoldable pub has_dot : Bytes → Bool
has_dot [] = false
has_dot (c ∷ cs) = c == b'.' || has_dot cs
