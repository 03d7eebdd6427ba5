-- ===== src/Tests/Typing.antt =====
-- The options, the commands of the user and the thread of the keyboard, on concrete input.
use tcp_udp_chat_server.Tests.Data.{mail_of, ready_pipe, udp_box, udp_listener}
use tcp_udp_chat_server.Streams.{is_space, read_token, skip_space, take_token}
use tcp_udp_chat_server.StdinListener.Rounds.{Typed, no_input, run_stdin, typed_line}
use tcp_udp_chat_server.StdinListener.Delivery.{
  long_line_cut, goes_well, lines_of, nonempty, text_of_lines, typed_lines-entered,
}
use tcp_udp_chat_server.MailBox.Typing.{is_command, rename_unchecked}
use tcp_udp_chat_server.MailBox.State.{tcp, udp}
use tcp_udp_chat_server.MailBox.Commands.{write_mail_line}
use tcp_udp_chat_server.Mail.Validate.{is_graphic, is_word, passes}
use tcp_udp_chat_server.Mail.Valid.{IsValid}
use tcp_udp_chat_server.Mail.Types.{
  AuthMessage, Mail, auth_message, join, join_message, msg, new_mail,
}
use tcp_udp_chat_server.Listener.State.{chunk}
use tcp_udp_chat_server.Listener.Lines.{enter_lines}
use tcp_udp_chat_server.Listener.Handlers.{listen_stdin}
use tcp_udp_chat_server.Common.{
  ◌↔◌, Bytes, List, [], all, arith, beq, codes, display_name_field, false, invalid, ok, pos, refl,
  replicate, throw, to_uint16, true, ℕ, ◌++◌, ◌>>=◌, ◌∷◌, ◌≡◌,
}
use tcp_udp_chat_server.ArgumentParser.Ranges.{InRange, given, last_ip, parse-InRange}
use tcp_udp_chat_server.ArgumentParser.Parse.{
  Args, make_args, parse, parse_option, parse_options, parse_type,
}
use tcp_udp_chat_server.ArgumentParser.Numbers.{
  atoi, is_digit, read_digits, read_signed, read_unsigned, starts_with_digit, stoi, to_uint8,
}

abbrev pub typed_auth : AuthMessage
typed_auth = record {
  message_id = 0;
  username = codes "xuser00";
  display_name = codes "Bob";
  secret = codes "top-secret";
}

pub typed_auth-IsValid : IsValid (auth_message typed_auth)
unfolding IsValid passes all is_word is_graphic
typed_auth-IsValid = (refl, refl, refl)

abbrev channel_join : Mail
channel_join = mail_of join (
    join_message
      (record { message_id = pos 0; channel_id = codes "room.1"; display_name = codes "default" }))

abbrev long_name : Bytes
long_name = replicate 21 b'x'

rename_unchecked_example :
    (write_mail_line (codes "/rename " ++ long_name) (new_mail msg) udp_box
      ≡ ok (
        record (new_mail msg) { add_to_mail_queue = false },
        record udp_box { display_name = long_name },
        [],
      ))
    × ((write_mail_line
            (codes "hello all")
            (new_mail msg)
            (record udp_box { display_name = long_name })
          ≡ throw (invalid display_name_field))
        ↔ (passes is_graphic 20 long_name ≡ false))
unfolding passes all is_graphic is_space is_command read_token skip_space take_token beq
rename_unchecked_example =
    rename_unchecked long_name (codes "hello all") (new_mail msg) (new_mail msg) udp_box refl
      (omega arith) refl

-- `-t udp -s localhost -p 70000 -r 256`
abbrev options : List (ℕ × Bytes)
options =
    (b't', codes "udp")
    ∷ (b's', codes "localhost")
    ∷ (b'p', codes "70000")
    ∷ (b'r', codes "256")
    ∷ []

abbrev args : Args
args = record {
  type = udp;
  ip = codes "localhost";
  port = 4464;
  timeout = 250;
  retries = 0;
  verbose = false;
  type_set = true;
  ip_set = true;
}

parsed : parse options (make_args tcp) ≡ ok args
unfolding parse make_args parse_options parse_option parse_type beq stoi atoi skip_space is_space
    read_signed read_unsigned starts_with_digit read_digits is_digit to_uint16 to_uint8
parsed = refl

parse-InRange_example :
    InRange args
    × (given b't' options ≡ true)
    × (given b's' options ≡ true)
    × (args.ip ≡ last_ip [] options)
parse-InRange_example = parse-InRange tcp options args parsed

-- Two lines, with a timeout and an empty line between them.
abbrev keyboard : List Typed
keyboard = typed_line (codes "/help") ∷ no_input ∷ typed_line [] ∷ typed_line (codes "hello") ∷ []

typed_lines-entered_example :
    (run_stdin keyboard ready_pipe ready_pipe
      ≡ ok (
        record ready_pipe { written = ready_pipe.written ++ text_of_lines (lines_of keyboard) },
        ready_pipe,
      ))
    × (listen_stdin msg (chunk (text_of_lines (lines_of keyboard))) udp_listener ≡ (
        enter_lines msg (nonempty (lines_of keyboard)) udp_listener.mailbox [] >>= λ r.
        ok (true, record udp_listener { mailbox = r.0 }, r.1)))
unfolding goes_well lines_of all text_of_lines
typed_lines-entered_example =
    typed_lines-entered msg keyboard ready_pipe ready_pipe udp_listener
      (record { has_fd = refl; no_failure = refl }) refl (refl, (refl, (refl, tt))) (omega arith)

-- A line of 1028 bytes.
long_line_cut_example :
    (listen_stdin msg
        (chunk (text_of_lines ((replicate 1023 b'a' ++ codes "hello") ∷ [])))
        udp_listener
      ≡ ok (true, udp_listener, []))
    × (listen_stdin msg (chunk (text_of_lines (codes "hello" ∷ []))) udp_listener ≡ (
        enter_lines msg (nonempty (codes "hello" ∷ [])) udp_listener.mailbox [] >>= λ r.
        ok (true, record udp_listener { mailbox = r.0 }, r.1)))
unfolding all
long_line_cut_example =
    long_line_cut msg (replicate 1023 b'a') (codes "hello") udp_listener refl (omega arith) refl
      refl
