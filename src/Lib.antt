-- ===== src/Lib.antt =====
-- The IPK24-CHAT client: a chat client over TCP or UDP, written in C++. The thread of the listener
-- reads the keyboard, the socket, the queue of mails to send and the signal pipe; the main thread
-- runs a state machine; the two share a mailbox.
--
-- The parts, and the files that model them:
-- - Mail (src/headers/mail-box.h, class Mail). Mail/Types: the kinds of message and their ids.
--   Mail/Validate: the validators and the constructors. Mail/Print: printMail, and the console.
--   Mail/Valid: what the constructors ensure. Mail/Patterns: the patterns of
--   src/headers/net-utils.h.
-- - Streams: what the program uses of std::istringstream and of C strings.
-- - Console (src/headers/utils.h): the diagnostics that -v turns on.
-- - MailBox (src/headers/mail-box.h, class MailBox). MailBox/State: the members. MailBox/Queue:
--   waitMail, getOutgoingMail, addMail, sendMail. MailBox/Commands: writeMail for a line that the
--   user types. MailBox/Local: writeMail for the client's own mails. MailBox/Udp: writeUDPMail.
--   MailBox/Tcp: writeTCPMail. MailBox/Wire: the choice between the two. The theorems:
--   MailBox/Laws, MailBox/Typing, MailBox/Typed, MailBox/Variants, MailBox/Udp/{Word, RoundTrip,
--   Bounds, Ids}, MailBox/Tcp/{Lines, RoundTrip}.
-- - Serializer (src/headers/mail-box.h, class MailSerializer), with Serializer/Grammar.
-- - Fsm (src/fsm.cpp, src/headers/fsm.h): FSM::run. Fsm/Arcs is the protocol as a relation,
--   Fsm/Walks and Fsm/Refine prove that the code keeps to it, Fsm/Ends that it ends, and
--   Fsm/History says what the server sees. Fsm/Pushes: what a handler puts into the queue.
--   Fsm/Variants: its calls of std::get.
-- - Listener (src/listeners.cpp, src/headers/listeners.h). Listener/State: the members.
--   Listener/Handlers: listenStdin, listenSocket, listenToSendPipe, listenSignal. Listener/Loop: a
--   round of runListener. Listener/Epoll: addFd, registerFds, registerFd, unregisterFd, and the
--   loop with them, over an epoll that is a parameter. Listener/Datagram: a datagram up to its
--   parsing. Listener/Thread: the catch around the loop, and what becomes of the process. The
--   theorems: Listener/{Retry, Clock, StopAndWait, Dedup, Copies, Confirm, Lines, Ending, Hang,
--   Fills, Hears, Grows, Registered, Watches, Watching, Variants}, and, for the wait for a CONFIRM
--   over many rounds, Listener/{Unconfirmed, StillAwaits, Waits}.
-- - Net (src/net.cpp, src/headers/net.h): sending, and receiving into the array, with Net/Arrays.
--   Net/Socket: making, connecting and closing the socket. Net/Hex: convertBufferToHexString.
--   Net/Log: the diagnostics of sendData. Net/Network: what NetworkConnection passes on.
-- - Program (src/main.cpp, runMain). Program/State: the objects. Program/Steps: the steps of the
--   main thread and of the listener. Program/Moves, Program/Sound and Program/Keeps: what every
--   step keeps. The theorems: Program/{Queue, Numbers, Variants, Wire, Datagrams, Ends}.
--   Program/Turns runs the threads by turns that are given: Program/Login, with its parts, is the
--   way from /auth to the conversation; Program/Conversation is what passes in it (Lines, Says,
--   Hears and Confirms for one message, Exchanges for a whole conversation, Unheard for the number
--   at which it breaks off); Program/Session is the login and a conversation, one after the other.
--   Program/Interrupt: from SIGINT or the end of the input to the BYE. Program/Shutdown: the
--   descriptors that are closed at the end. Program/Main: runMain up to the start of the threads,
--   and main.
-- - ArgumentParser (src/arg-parser.cpp, src/headers/arg-parser.h). ArgumentParser/Parse: parse.
--   ArgumentParser/Numbers: std::stoi, atoi and the conversions. ArgumentParser/Ranges: what parse
--   ensures.
-- - StdinListener (src/listeners.cpp). StdinListener/Rounds: runListener. StdinListener/Delivery:
--   from the keyboard through the pipe into the mailbox. StdinListener/Stop: the object, with stop.
-- - Pipe (src/headers/pipes.h), with Pipe/Manager for PipeManager, and StopWatch
--   (src/headers/stopwatch.h).
-- - Common: numbers, tests, lists, the errors and the monad of results. Tests: concrete runs.
--
-- How they correspond. A class is a record of its members, and a member function is a function from
-- the state to the state after it; the names are the source's in snake case. An exception is
-- `throw` with an `Error` that names its message; reading or writing outside an array, and `front`
-- of an empty queue, which C++ leaves undefined, are the error `out_of_bounds`. A `Mail` that is
-- declared without an initialiser has a type that nothing sets: it is the parameter `junk`. A byte
-- is a number below 256 and a `char` is signed. What the system calls answer is an argument: what
-- `read` and `recv` give, what `epoll_wait` returns, whether a send fails, what the clock shows.
-- What was sent is the list `sent` of the connection, and what either thread printed is a list of
-- outputs, `out` of Program/State.Program. A read of stdin's pipe takes 1023 bytes at most of what
-- the pipe holds. The diagnostics that -v turns on are left out of it, and with them the making of
-- their texts: those of sendData are in Net/Log by themselves.
--
-- The two threads interact by the mailbox, the pipe that announces mails to send, and the flag of
-- `stop`. The member functions of the mailbox are single steps. In Program/Steps a step of the main
-- thread is `waitMail`, or what is done with the mail that it gave, or the call of `stop`; a step of
-- the listener is one event, the top of a round, or a timeout; a state is reached by steps of either
-- thread in any order. Fsm/History, which has the state machine alone, lets the listener replace the
-- mailbox between any two rounds of it.
--
-- Fuel. FSM::run runs on fuel; more than the number of waiting mails and two more is enough until it
-- waits, returns or fails. The loops of the two listeners run over the list of what `epoll_wait` and
-- `select` returned. `decimal` writes up to ten digits, which is enough for an int of 32 bits.
--
-- epoll is a parameter, Listener/Epoll.Epoll, with what its manual says of `epoll_ctl` as the
-- hypothesis IsLawful. Which descriptors can be watched (open ones, of a kind that epoll supports,
-- within the kernel's limits) is a part of the parameter. Tests/Watching has one that is lawful.
--
-- Not modelled: the starting of threads and the creation of the epoll descriptor, which are system
-- calls; the errors of `close`; the effect of closing a descriptor that another thread still reads;
-- what comes behind an exception of the main thread, whose unwinding joins the listener's thread;
-- the non-blocking flag of a pipe; the diagnostics that -v turns on, but for those of sendData.
pub mod Common
pub mod Mail
pub mod Streams
pub mod Console
pub mod Pipe
pub mod Serializer
pub mod MailBox
pub mod Fsm
pub mod StopWatch
pub mod Net
pub mod Listener
pub mod Tests
pub mod ArgumentParser
pub mod StdinListener
pub mod Program
