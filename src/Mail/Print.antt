-- ===== src/Mail/Print.antt =====
-- src/headers/mail-box.h, Mail::printMail, and the console that the program writes to.
use Prim.Native.Nat.{ℕ}
use tcp_udp_chat_server.Common.{
  zero, suc, ◌+◌, ◌/◌, ◌%◌, List, [], ◌∷◌, ◌++◌, Bytes, codes, ltb, if◌then◌else◌, ℤ, pos, negsuc,
}
use tcp_udp_chat_server.Mail.Types.{
  Mail, MessageData, confirm_message, auth_message, join_message, error_message, bye_message,
  text_message, reply_message, unknown_message,
}

-- What each statement writes to `std::cout` and `std::cerr`. The text that only `verbose` turns on
-- is left out.
pub data Output : Type 0 where
  cout cerr : Bytes → Output

-- `std::endl`
abbrev pub endl : Bytes
endl = b'\n' ∷ []

-- The decimal digits of `n`, in front of `rest`; the fuel bounds the number of digits.
digits_onto : ℕ → ℕ → Bytes → Bytes
digits_onto zero n rest = rest
digits_onto (suc fuel) n rest =
    let digit = (b'0' + n % 10) ∷ rest in
    let more = digits_onto fuel (n / 10) digit in if ltb n 10 then digit else more

-- `std::cout << n` for an `int`, which has ten digits at most.
unfoldable pub decimal : ℤ → Bytes
unfolding digits_onto
decimal (pos n) = digits_onto 10 n []
decimal (negsuc n) = b'-' ∷ digits_onto 10 (n + 1) []

-- The text of `printMail`, without the codes that set and reset the colour, and without the `endl`.
print_data : MessageData → Bytes
print_data (confirm_message m) = codes "CONFIRM: RefMessageID = " ++ decimal m.ref_message_id
print_data (auth_message m) =
    codes "AUTH: MessageID = "
    ++ decimal (pos m.message_id)
    ++ codes ", Username = "
    ++ m.username
    ++ codes ", DisplayName = "
    ++ m.display_name
    ++ codes ", Secret = "
    ++ m.secret
print_data (join_message m) =
    codes "JOIN: MessageID = "
    ++ decimal m.message_id
    ++ codes ", ChannelID = "
    ++ m.channel_id
    ++ codes ", DisplayName = "
    ++ m.display_name
print_data (error_message m) =
    codes "ERR: MessageID = "
    ++ decimal m.message_id
    ++ codes ", DisplayName = "
    ++ m.display_name
    ++ codes ", MessageContent = "
    ++ m.message_content
print_data (bye_message m) = codes "BYE: MessageID = " ++ decimal m.message_id
print_data (text_message m) =
    codes "TEXT: MessageID = "
    ++ decimal m.message_id
    ++ codes ", DisplayName = "
    ++ m.display_name
    ++ codes ", MessageContent = "
    ++ m.message_content
print_data (reply_message m) =
    codes "REPLY: MessageID = "
    ++ decimal m.message_id
    ++ codes ", Result = "
    ++ codes (if m.result then "Success" else "Failure")
    ++ codes ", RefMessageID = "
    ++ decimal m.ref_message_id
    ++ codes ", MessageContent = "
    ++ m.message_content
print_data (unknown_message m) = codes "UNKNOWN: MessageID = " ++ decimal m.message_id

-- `printMail`.
unfoldable pub print_mail : Mail → List Output
unfolding print_data
print_mail m =
    cout (0x1b ∷ codes "[1;35m")
    ∷ cout (print_data m.payload ++ endl)
    ∷ cout (0x1b ∷ codes "[0m")
    ∷ []
