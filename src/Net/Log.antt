-- ===== src/Net/Log.antt =====
-- src/net.cpp, the two `sendData`: the diagnostics that they print, whose texts are made whether or
-- not -v is given.
use tcp_udp_chat_server.Streams.{c_string}
use tcp_udp_chat_server.Serializer.{serialize}
use tcp_udp_chat_server.Net.Hex.{convert_buffer_to_hex_string}
use tcp_udp_chat_server.MailBox.Tcp.RoundTrip.{is_nonzero, serialize-nonzero}
use tcp_udp_chat_server.Mail.Valid.{IsValid}
use tcp_udp_chat_server.Mail.Types.{Mail, type_of_data}
use tcp_udp_chat_server.Mail.Print.{Output, decimal}
use tcp_udp_chat_server.Console.{print_green, print_red}
use tcp_udp_chat_server.Common.{
  Bool, Bytes, List, Result, [], all, arith, codes, false, ok, out_of_bounds, pos, refl, suc, throw,
  true, zero, ℕ, ◌++◌, ◌>>=◌, ◌∷◌, ◌≡◌,
}

-- ` to ` and the address.
abbrev to_address : Bytes → ℕ → Bytes
to_address ip port = codes " to " ++ ip ++ codes " on port " ++ decimal (pos port)

-- `TcpProtocol::sendData`, behind the `send`: `std::string(buffer.data())` reads up to a NUL.
unfoldable pub log_tcp : Bool → Bytes → ℕ → Mail → Result (List Output)
log_tcp verbose ip port mail = c_string (serialize false mail) >>= λ text.
    ok (print_red verbose (codes "Sending data: " ++ text ++ to_address ip port))

-- `UdpProtocol::sendData`, before the `sendTo`, and `sendTo`.
unfoldable pub log_udp : Bool → Bytes → ℕ → Mail → List Output
log_udp verbose ip port mail =
    print_red verbose (
      codes "Sending data: "
      ++ convert_buffer_to_hex_string (serialize true mail)
      ++ to_address ip port)
    ++ print_green verbose (codes "Sending data" ++ to_address ip port)

c_string-overreads : (s : Bytes) → all is_nonzero s ≡ true → c_string s ≡ throw out_of_bounds
unfolding c_string all
c_string-overreads [] h = refl
c_string-overreads (zero ∷ s) h = ground arith
c_string-overreads (suc c ∷ s) h = ground (arith, c_string-overreads s)

-- The line of a mail whose type is that of its data, and whose fields its constructor accepts,
-- holds no NUL. So the text that `TcpProtocol::sendData` makes of it for the diagnostics reads past
-- the end of the line, with -v and without.
pub log_tcp-overreads :
    (verbose : Bool) (ip : Bytes) (port : ℕ) (mail : Mail)
    → mail.type ≡ type_of_data mail.payload
    → IsValid mail.payload
    → log_tcp verbose ip port mail ≡ throw out_of_bounds
unfolding log_tcp
log_tcp-overreads verbose ip port mail t v =
    rw (c_string-overreads (serialize false mail) (serialize-nonzero mail t v)) refl
