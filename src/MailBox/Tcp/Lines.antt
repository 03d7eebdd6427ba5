-- ===== src/MailBox/Tcp/Lines.antt =====
-- How the readers of MailBox::writeTCPMail take the lines of MailSerializer apart.

use tcp_udp_chat_server.Serializer.Grammar.{crlf}
use tcp_udp_chat_server.Streams.Laws.{get_line-all, is_solid, read_token_next, strip_return-append}
use tcp_udp_chat_server.Streams.{
  get_line, is_space, read_token, skip_space, strip_blank, take_token,
}
use tcp_udp_chat_server.MailBox.Udp.{received}
use tcp_udp_chat_server.MailBox.Tcp.{
  read_auth, read_join, read_msg, read_reply, read_content, read_err,
}
use tcp_udp_chat_server.Mail.Validate.{
  is_channel, is_word, make_auth, is_graphic, is_printable, passes,
}
use tcp_udp_chat_server.Mail.Valid.{
  make_join_ok, make_reply_ok, make_text_ok, make_error_ok, IsValid, passes_iff,
}
use tcp_udp_chat_server.Mail.Types.{
  AuthMessage, JoinMessage, ReplyMessage, TextMessage, auth, auth_message, join, join_message, msg,
  reply, reply_message, text_message, ErrorMessage, Mail, err, error_message,
}
use tcp_udp_chat_server.Common.{
  beq_refl, if◌then◌else◌, minus_one, not, ◌&&◌, ◌>>=◌, Bool, Bytes, [], all, arith, beq, codes,
  false, pos, refl, true, ℕ, ◌++◌, ◌∷◌, ◌≡◌,
}

read_content-all :
    (s rest : Bytes)
    → all is_printable s ≡ true
    → read_content (b' ' ∷ (s ++ b'\r' ∷ b'\n' ∷ rest)) ≡ s
unfolding read_content get_line strip_blank is_printable
read_content-all s rest h =
    rw (get_line-all is_printable s rest refl h) (rw (strip_return-append (b' ' ∷ s)))

from_token : (rest : Bytes) → read_token (codes " FROM " ++ rest) ≡ (codes "FROM", b' ' ∷ rest)
unfolding read_token skip_space take_token is_space
from_token rest = refl

is_token : (rest : Bytes) → read_token (codes " IS " ++ rest) ≡ (codes "IS", b' ' ∷ rest)
unfolding read_token skip_space take_token is_space
is_token rest = refl

pub graphic_solid : (c : ℕ) → is_graphic c ≡ true → is_solid c ≡ true
unfolding is_graphic is_space
graphic_solid c h = ground arith

pub all_mono :
    (p q : ℕ → Bool) (s : Bytes)
    → ((c : ℕ) → p c ≡ true → q c ≡ true)
    → all p s ≡ true
    → all q s ≡ true
unfolding all
all_mono p q [] f h = refl
all_mono p q (c ∷ s) f h = ground (arith, f c, all_mono p q s f)

pub word_solid : (c : ℕ) → is_word c ≡ true → is_solid c ≡ true
unfolding is_word is_space
word_solid c h = ground arith

pub channel_solid : (c : ℕ) → is_channel c ≡ true → is_solid c ≡ true
unfolding is_channel is_word is_space
channel_solid c h = ground arith

pub class_token :
    (cls : ℕ → Bool) (max : ℕ) (s rest : Bytes) (stop : ℕ)
    → ((c : ℕ) → cls c ≡ true → is_solid c ≡ true)
    → passes cls max s ≡ true
    → is_space stop ≡ true
    → read_token (b' ' ∷ (s ++ stop ∷ rest)) ≡ (s, stop ∷ rest)
class_token cls max s rest stop f h e =
    let (long, _, inside) = (passes_iff cls max s).0 h in
    read_token_next s stop rest (all_mono cls is_solid s f inside) long e

pub name_token :
    (s rest : Bytes) (stop : ℕ)
    → passes is_graphic 20 s ≡ true
    → is_space stop ≡ true
    → read_token (b' ' ∷ (s ++ stop ∷ rest)) ≡ (s, stop ∷ rest)
name_token s rest stop = class_token is_graphic 20 s rest stop graphic_solid

pub word_token :
    (max : ℕ) (s rest : Bytes) (stop : ℕ)
    → passes is_word max s ≡ true
    → is_space stop ≡ true
    → read_token (b' ' ∷ (s ++ stop ∷ rest)) ≡ (s, stop ∷ rest)
word_token max s rest stop = class_token is_word max s rest stop word_solid

pub channel_token :
    (s rest : Bytes) (stop : ℕ)
    → passes is_channel 20 s ≡ true
    → is_space stop ≡ true
    → read_token (b' ' ∷ (s ++ stop ∷ rest)) ≡ (s, stop ∷ rest)
channel_token s rest stop = class_token is_channel 20 s rest stop channel_solid

-- The text in front of the content, and the content up to the end of its line.
abbrev pub from_is : Bytes → Bytes → Bytes → Bytes
from_is name content rest =
    codes " FROM " ++ (name ++ (codes " IS " ++ (content ++ (crlf ++ rest))))

content_IsValid : (s : Bytes) → passes is_printable 1400 s ≡ true → all is_printable s ≡ true
content_IsValid s h = ((passes_iff is_printable 1400 s).0 h).2

pub blank_space : is_space b' ' ≡ true
unfolding is_space
blank_space = refl

beq_nonempty : (s : Bytes) → passes is_printable 1400 s ≡ true → beq s [] ≡ false
unfolding beq
beq_nonempty [] h = absurd (omega (arith, ((passes_iff is_printable 1400 []).0 h).0))
beq_nonempty (c ∷ s) h = refl

pub read_err-from_is :
    (m : ErrorMessage) (seq : ℕ) (rest : Bytes) (mail : Mail)
    → IsValid (error_message m)
    → read_err seq (from_is m.display_name m.message_content rest) mail
      ≡ received err (error_message (record m { message_id = pos seq })) true mail
unfolding read_err IsValid beq
read_err-from_is m seq rest mail v = rw (
  from_token,
  name_token m.display_name (codes "IS " ++ (m.message_content ++ (crlf ++ rest))) b' ' v.0
      blank_space,
  is_token,
  read_content-all m.message_content rest (content_IsValid m.message_content v.1),
  make_error_ok (pos seq) m.display_name m.message_content v,
  beq_nonempty m.message_content v.1,
)

pub read_msg-from_is :
    (m : TextMessage) (seq : ℕ) (rest : Bytes) (mail : Mail)
    → IsValid (text_message m)
    → read_msg seq (from_is m.display_name m.message_content rest) mail
      ≡ received msg (text_message (record m { to_send = false; message_id = pos seq })) true mail
unfolding read_msg IsValid beq
read_msg-from_is m seq rest mail v = rw (
  from_token,
  name_token m.display_name (codes "IS " ++ (m.message_content ++ (crlf ++ rest))) b' ' v.0
      blank_space,
  is_token,
  read_content-all m.message_content rest (content_IsValid m.message_content v.1),
  make_text_ok (pos seq) m.display_name m.message_content v,
)

response_token :
    (b : Bool) (rest : Bytes)
    → read_token (b' ' ∷ (codes (if b then "OK" else "NOK") ++ b' ' ∷ rest))
      ≡ (codes (if b then "OK" else "NOK"), b' ' ∷ rest)
unfolding read_token skip_space take_token is_space
response_token true rest = refl
response_token false rest = refl

response_known : (b : Bool) → beq (codes (if b then "OK" else "NOK")) (codes "OK") ≡ b
unfolding beq
response_known true = refl
response_known false = refl

response_wanted :
    (b : Bool) → (not b && not (beq (codes (if b then "OK" else "NOK")) (codes "NOK"))) ≡ false
unfolding beq
response_wanted true = refl
response_wanted false = refl

pub read_reply-line :
    (m : ReplyMessage) (seq : ℕ) (rest : Bytes) (mail : Mail)
    → IsValid (reply_message m)
    → read_reply seq
        (b' '
          ∷ (codes (if m.result then "OK" else "NOK")
              ++ (codes " IS " ++ (m.message_content ++ (crlf ++ rest)))))
        mail
      ≡ received reply
          (reply_message (record m { message_id = pos seq; ref_message_id = minus_one }))
          true
          mail
unfolding read_reply IsValid
read_reply-line m seq rest mail v = rw (
  response_token m.result (codes "IS " ++ (m.message_content ++ (crlf ++ rest))),
  is_token,
  response_known m.result,
  response_wanted m.result,
  read_content-all m.message_content rest (content_IsValid m.message_content v),
  make_reply_ok (pos seq) m.result minus_one m.message_content v,
  beq_refl (codes "IS"),
)

as_token : (rest : Bytes) → read_token (codes " AS " ++ rest) ≡ (codes "AS", b' ' ∷ rest)
unfolding read_token skip_space take_token is_space
as_token rest = refl

using_token : (rest : Bytes) → read_token (codes " USING " ++ rest) ≡ (codes "USING", b' ' ∷ rest)
unfolding read_token skip_space take_token is_space
using_token rest = refl

return_space : is_space b'\r' ≡ true
unfolding is_space
return_space = refl

pub read_join-line :
    (m : JoinMessage) (seq : ℕ) (rest : Bytes) (mail : Mail)
    → IsValid (join_message m)
    → read_join seq
        (b' ' ∷ (m.channel_id ++ (codes " AS " ++ (m.display_name ++ (crlf ++ rest)))))
        mail
      ≡ received join (join_message (record m { message_id = pos seq })) true mail
unfolding read_join IsValid
read_join-line m seq rest mail v = rw (
  channel_token m.channel_id (codes "AS " ++ (m.display_name ++ (crlf ++ rest))) b' ' v.0
      blank_space,
  as_token,
  name_token m.display_name (b'\n' ∷ rest) b'\r' v.1 return_space,
  make_join_ok (pos seq) m.channel_id m.display_name v,
  beq_refl (codes "AS"),
)

pub read_auth-line :
    (m : AuthMessage) (seq : ℕ) (rest : Bytes) (mail : Mail)
    → IsValid (auth_message m)
    → read_auth seq
        (b' '
          ∷ (m.username
              ++ (codes " AS "
                  ++ (m.display_name ++ (codes " USING " ++ (m.secret ++ (crlf ++ rest)))))))
        mail
      ≡ (make_auth seq m.username m.secret m.display_name >>= λ k.
          received auth (auth_message k) true mail)
unfolding read_auth IsValid beq
read_auth-line m seq rest mail v = rw (
  word_token 20 m.username
      (codes "AS " ++ (m.display_name ++ (codes " USING " ++ (m.secret ++ (crlf ++ rest))))) b' '
      v.0 blank_space,
  as_token,
  name_token m.display_name (codes "USING " ++ (m.secret ++ (crlf ++ rest))) b' ' v.1 blank_space,
  using_token,
  word_token 128 m.secret (b'\n' ∷ rest) b'\r' v.2 return_space,
)
