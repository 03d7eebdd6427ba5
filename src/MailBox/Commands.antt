-- ===== src/MailBox/Commands.antt =====
-- src/headers/mail-box.h, MailBox::writeMail(line, mail): the lines that the user types. It always
-- returns true, so the model returns the mail, the mailbox and what was printed.
use tcp_udp_chat_server.Common.{
  List, [], ◌∷◌, ◌++◌, true, false, String, Bytes, codes, beq, if◌then◌else◌, pos, Result, ok,
  ◌>>=◌,
}
use tcp_udp_chat_server.Mail.Types.{Mail, msg, auth, join, auth_message, join_message, text_message}
use tcp_udp_chat_server.Mail.Validate.{make_auth, make_join, make_text}
use tcp_udp_chat_server.Mail.Print.{Output, cout, endl, print_mail}
use tcp_udp_chat_server.Streams.{read_token}
use tcp_udp_chat_server.MailBox.State.{MailBox}

abbrev pub Written : Type 0
Written = Mail × MailBox × List Output

write_auth : Bytes → Mail → MailBox → Result Written
write_auth iss mail mb =
    let (username, iss1) = read_token iss in
    let (secret, iss2) = read_token iss1 in
    let (display_name, iss3) = read_token iss2 in
    make_auth mb.sequence_udp_number username display_name secret >>= λ m. ok (
      record mail { type = auth; payload = auth_message m; add_to_mail_queue = true },
      record mb { display_name = m.display_name },
      [],
    )

write_join : Bytes → Mail → MailBox → Result Written
write_join iss mail mb =
    let (channel_id, iss1) = read_token iss in
    make_join (pos mb.sequence_udp_number) channel_id mb.display_name >>= λ m.
    ok (record mail { type = join; payload = join_message m; add_to_mail_queue = true }, mb, [])

write_rename : Bytes → Mail → MailBox → Result Written
write_rename iss mail mb =
    let (new_display_name, iss1) = read_token iss in
    ok
      (record mail { add_to_mail_queue = false }, record mb { display_name = new_display_name }, [])

help_line : String → Output
help_line s = cout (codes s ++ endl)

abbrev help : List Output
help =
    help_line "Supported commands:"
    ∷ help_line
        "/auth {Username} {Secret} {DisplayName} - Authenticates the user with the server using the provided username and secret. Sets the local display name to the provided value."
    ∷ help_line "/join {ChannelID} - Joins the channel with the specified ID."
    ∷ help_line
        "/rename {DisplayName} - Locally changes the display name of the user. This name is used in subsequent messages or commands that require a display name."
    ∷ help_line
        "/help - Prints out this help message showing supported commands and their parameters."
    ∷ []

-- `printMails`.
unfoldable pub print_mails : List Mail → List Output
print_mails [] = []
print_mails (mail ∷ rest) = print_mail mail ++ print_mails rest

-- Any other line is a message, sent as it was typed.
write_text : Bytes → Mail → MailBox → Result Written
write_text line mail mb = make_text (pos mb.sequence_udp_number) mb.display_name line >>= λ m. ok (
  record mail {
    type = msg;
    payload = text_message (record m { to_send = true });
    add_to_mail_queue = true;
  },
  mb,
  [],
)

unfoldable pub write_mail_line : Bytes → Mail → MailBox → Result Written
unfolding write_auth write_join write_rename help_line print_mails write_text
write_mail_line line mail mb =
    let (command, iss) = read_token line in
    if beq command (codes "/auth")
    then write_auth iss mail mb
    else if beq command (codes "/join")
    then write_join iss mail mb
    else if beq command (codes "/rename")
    then write_rename iss mail mb
    else if beq command (codes "/help")
    then ok (record mail { add_to_mail_queue = false }, mb, help)
    else if beq command (codes "/print")
    then ok (record mail { add_to_mail_queue = false }, mb, print_mails mb.incoming_mails)
    else write_text line mail mb
