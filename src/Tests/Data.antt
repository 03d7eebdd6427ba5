-- ===== src/Tests/Data.antt =====
-- The mails, mailboxes and listeners that the tests use.
use tcp_udp_chat_server.MailBox.State.{MailBox, make_mail_box, tcp, udp}
use tcp_udp_chat_server.Mail.Types.{
  new_mail, Mail, MessageData, MessageType, auth, auth_message, confirm, confirm_message, msg,
  reply, reply_message, text_message,
}
use tcp_udp_chat_server.Listener.State.{Listener}
use tcp_udp_chat_server.Common.{minus_one, [], codes, false, pos, some, true, ℕ}
use tcp_udp_chat_server.Pipe.{Pipe, to_send_pipe}

abbrev pub ready_pipe : Pipe
ready_pipe = record {
  type = to_send_pipe;
  read_fd = pos 5;
  write_fd = pos 6;
  write_fails = false;
  written = [];
}

abbrev pub udp_box : MailBox
udp_box = make_mail_box udp (some ready_pipe)

abbrev pub tcp_box : MailBox
tcp_box = make_mail_box tcp (some ready_pipe)

abbrev pub mail_of : MessageType → MessageData → Mail
mail_of type payload = record {
  type = type;
  payload = payload;
  add_to_mail_queue = true;
  sigint = false;
}

abbrev pub auth_mail : Mail
auth_mail = mail_of auth (
    auth_message (record {
      message_id = 0;
      username = codes "xuser00";
      display_name = codes "Bob";
      secret = codes "top-secret";
    }))

-- The server's answer to the AUTH above.
abbrev pub granted_mail : Mail
granted_mail = mail_of reply (
    reply_message (record {
      message_id = pos 1;
      result = true;
      ref_message_id = pos 0;
      message_content = codes "Welcome";
    }))

-- A message from the server, with the id `n`.
abbrev pub heard_mail : ℕ → Mail
heard_mail n = mail_of msg (
    text_message (record {
      to_send = false;
      message_id = pos n;
      display_name = codes "Eve";
      message_content = codes "hi all";
    }))

abbrev pub confirm_mail : ℕ → Mail
confirm_mail n = mail_of confirm (confirm_message (record { ref_message_id = pos n }))

-- A new listener thread, by UDP, with a timeout of 250 ms and 3 retries.
abbrev pub udp_listener : Listener
udp_listener = record {
  mailbox = udp_box;
  connection = record {
    protocol = udp;
    port = 4567;
    timeout = pos 250;
    retries = pos 3;
    send_fails = false;
    sent = [];
  };
  protocol_type = udp;
  conf_mail = new_mail msg;
  received_confirm = true;
  to_send_registered = true;
  retries = 0;
  ref_msg_id = minus_one;
  ref_auth_id = minus_one;
  keep_running = true;
  sent_bye = false;
}

-- The same, waiting for the CONFIRM of the AUTH with the id 0.
abbrev pub waiting_listener : Listener
waiting_listener = record udp_listener {
  conf_mail = auth_mail;
  received_confirm = false;
  ref_msg_id = pos 0;
  ref_auth_id = pos 0;
}
