-- ===== src/MailBox/Typing.antt =====
-- src/headers/mail-box.h, MailBox::writeMail(line, mail): what the commands do.
use tcp_udp_chat_server.Streams.Laws.{is_solid, read_token_last}
use tcp_udp_chat_server.Streams.{is_space, read_token, skip_space, take_token}
use tcp_udp_chat_server.MailBox.Tcp.Lines.{
  all_mono, blank_space, channel_solid, graphic_solid, word_token,
}
use tcp_udp_chat_server.MailBox.State.{MailBox}
use tcp_udp_chat_server.MailBox.Commands.{write_mail_line}
use tcp_udp_chat_server.Mail.Validate.{make_text, is_channel, is_graphic, passes}
use tcp_udp_chat_server.Mail.Valid.{IsValid, make_auth_ok, make_join_ok, passes_iff}
use tcp_udp_chat_server.Mail.Types.{AuthMessage, Mail, auth, auth_message, join, join_message}
use tcp_udp_chat_server.Common.{
  ◌↔◌, all, arith, display_name_field, false, invalid, length, throw, ◌||◌, ◌≤◌, Bool, Bytes, [],
  beq, codes, ok, pos, refl, true, ℕ, ◌++◌, ◌∷◌, ◌≡◌,
}

-- A token of a class, at the end of a line.
last_token :
    (cls : ℕ → Bool) (max : ℕ) (s : Bytes)
    → ((c : ℕ) → cls c ≡ true → is_solid c ≡ true)
    → passes cls max s ≡ true
    → read_token (b' ' ∷ s) ≡ (s, [])
last_token cls max s f h =
    let parts = (passes_iff cls max s).0 h in
    read_token_last s (all_mono cls is_solid s f parts.2) parts.0

auth_word : (rest : Bytes) → read_token (codes "/auth " ++ rest) ≡ (codes "/auth", b' ' ∷ rest)
unfolding read_token skip_space take_token is_space
auth_word rest = refl

join_word : (rest : Bytes) → read_token (codes "/join " ++ rest) ≡ (codes "/join", b' ' ∷ rest)
unfolding read_token skip_space take_token is_space
join_word rest = refl

rename_word :
    (rest : Bytes) → read_token (codes "/rename " ++ rest) ≡ (codes "/rename", b' ' ∷ rest)
unfolding read_token skip_space take_token is_space
rename_word rest = refl

-- `/auth username secret displayName`, with valid fields, makes the AUTH of these fields with the
-- mailbox's number, and takes the display name over.
pub write_mail_line-auth :
    (m : AuthMessage) (mail : Mail) (mb : MailBox)
    → IsValid (auth_message m)
    → write_mail_line
        (codes "/auth " ++ (m.username ++ (b' ' ∷ (m.secret ++ (b' ' ∷ m.display_name)))))
        mail
        mb
      ≡ ok (
        record mail {
          type = auth;
          payload = auth_message (record m { message_id = mb.sequence_udp_number });
          add_to_mail_queue = true;
        },
        record mb { display_name = m.display_name },
        [],
      )
unfolding write_mail_line IsValid beq
write_mail_line-auth m mail mb v =
    rw
      (
        auth_word,
        word_token 20 m.username (m.secret ++ (b' ' ∷ m.display_name)) b' ' v.0 blank_space,
        word_token 128 m.secret m.display_name b' ' v.2 blank_space,
        last_token is_graphic 20 m.display_name graphic_solid v.1,
        make_auth_ok mb.sequence_udp_number m.username m.display_name m.secret v,
      )
      refl

-- `/join channelID`, with a valid channel and a valid display name in the mailbox, makes the JOIN
-- of that channel under that name; the mailbox stays.
pub write_mail_line-join :
    (channel : Bytes) (mail : Mail) (mb : MailBox)
    → passes is_channel 20 channel ≡ true
    → passes is_graphic 20 mb.display_name ≡ true
    → write_mail_line (codes "/join " ++ channel) mail mb
      ≡ ok (
        record mail {
          type = join;
          payload = join_message (record {
            message_id = pos mb.sequence_udp_number;
            channel_id = channel;
            display_name = mb.display_name;
          });
          add_to_mail_queue = true;
        },
        mb,
        [],
      )
unfolding write_mail_line IsValid beq
write_mail_line-join channel mail mb c d =
    rw
      (
        join_word,
        last_token is_channel 20 channel channel_solid c,
        make_join_ok (pos mb.sequence_udp_number) channel mb.display_name (c, d),
      )
      refl

-- The words that `writeMail` takes for a command.
unfoldable pub is_command : Bytes → Bool
is_command word =
    beq word (codes "/auth")
    || beq word (codes "/join")
    || beq word (codes "/rename")
    || beq word (codes "/help")
    || beq word (codes "/print")

text_needs_name :
    (line : Bytes) (mail : Mail) (mb : MailBox)
    → is_command (read_token line).0 ≡ false
    → (write_mail_line line mail mb ≡ throw (invalid display_name_field))
      ↔ (passes is_graphic 20 mb.display_name ≡ false)
unfolding write_mail_line make_text is_command
text_needs_name line mail mb c = (λ e. ground arith, λ n. ground arith)

-- `/rename` takes every word, which is not empty and holds no white space, for the display name,
-- valid or not, makes no mail of it, and says nothing. Under the new name a line that is no command
-- throws the error of `validateDisplayName` exactly where the word is none that this accepts.
pub rename_unchecked :
    (name line : Bytes) (mail mail1 : Mail) (mb : MailBox)
    → all is_solid name ≡ true
    → 1 ≤ length name
    → is_command (read_token line).0 ≡ false
    → (write_mail_line (codes "/rename " ++ name) mail mb
        ≡ ok (record mail { add_to_mail_queue = false }, record mb { display_name = name }, []))
      × ((write_mail_line line mail1 (record mb { display_name = name })
            ≡ throw (invalid display_name_field))
          ↔ (passes is_graphic 20 name ≡ false))
unfolding write_mail_line beq
rename_unchecked name line mail mail1 mb s n c = (
  rw (rename_word, read_token_last name s n) refl,
  text_needs_name line mail1 (record mb { display_name = name }) c,
)
