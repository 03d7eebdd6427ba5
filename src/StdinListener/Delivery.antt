-- ===== src/StdinListener/Delivery.antt =====
-- From the keyboard to the mailbox: StdinListener::runListener writes the lines into the pipe, and
-- Listener::listenStdin takes them out of it.
use tcp_udp_chat_server.Pipe.{Pipe, write}
use tcp_udp_chat_server.StdinListener.Rounds.{
  Typed, end_of_input, no_input, run_stdin, select_failed, typed_line, with_newline,
}
use tcp_udp_chat_server.Mail.Types.{MessageType}
use tcp_udp_chat_server.Listener.State.{Listener, chunk}
use tcp_udp_chat_server.Listener.Lines.{
  split_line_lost, complete_lines, enter_lines, listen_stdin-enter_lines,
}
use tcp_udp_chat_server.Listener.Handlers.{stdin_room, listen_stdin}
use tcp_udp_chat_server.Common.{
  suc, zero, length, length-append, take, take-all, ◌≤◌, ap, eq_ℤ, minus_one, All, Bool, Bytes,
  List, [], all, append-nil, append_assoc, arith, beq, false, if◌then◌else◌, not, ok, refl, true, ℕ,
  ◌++◌, ◌==◌, ◌>>=◌, ◌∙◌, ◌∷◌, ◌≡◌,
}

-- What the pipe carries for some lines.
unfoldable pub text_of_lines : List Bytes → Bytes
text_of_lines [] = []
text_of_lines (l ∷ ls) = with_newline l ++ text_of_lines ls

abbrev pub not_newline : ℕ → Bool
not_newline c = not (c == b'\n')

-- No line holds a \n, as `std::getline` ensures.
abbrev pub OneLineEach : List Bytes → Type 0
OneLineEach lines = All (λ l. all not_newline l ≡ true) lines

-- The lines that are not empty.
unfoldable pub nonempty : List Bytes → List Bytes
nonempty [] = []
nonempty (l ∷ ls) = let rest = nonempty ls in if beq l [] then rest else l ∷ rest

complete_lines-append :
    (l line rest : Bytes)
    → all not_newline l ≡ true
    → complete_lines (l ++ rest) line ≡ complete_lines rest (line ++ l)
unfolding complete_lines all
complete_lines-append [] line rest h = rw append-nil refl
complete_lines-append (c ∷ cs) line rest h =
    let no : (c == b'\n') ≡ false = ground arith in
    let there = complete_lines-append cs (line ++ c ∷ []) rest (ground arith) in
    rw (no, complete_lines) (there ∙ simp append_assoc)

complete_lines-text_of_lines :
    (lines : List Bytes)
    → OneLineEach lines
    → complete_lines (text_of_lines lines) [] ≡ nonempty lines
unfolding complete_lines text_of_lines nonempty beq
complete_lines-text_of_lines [] h = refl
complete_lines-text_of_lines ([] ∷ ls) h = complete_lines-text_of_lines ls h.1
complete_lines-text_of_lines ((c ∷ cs) ∷ ls) h = simp append_assoc (
    complete_lines-append (c ∷ cs) [] (b'\n' ∷ text_of_lines ls) h.0
    ∙ ap (λ rest. (c ∷ cs) ∷ rest) (complete_lines-text_of_lines ls h.1))

-- The same of a read that takes the whole text.
pub lines_read :
    (lines : List Bytes)
    → OneLineEach lines
    → length (text_of_lines lines) ≤ 1023
    → complete_lines (take stdin_room (text_of_lines lines)) [] ≡ nonempty lines
lines_read lines h n =
    rw (take-all 1023 (text_of_lines lines) n) (complete_lines-text_of_lines lines h)

pub text_length : (line : Bytes) → length line ≤ 1022 → length (text_of_lines (line ∷ [])) ≤ 1023
unfolding text_of_lines
text_length line h =
    rw (append-nil (line ++ b'\n' ∷ [])) (omega (arith, length-append line (b'\n' ∷ [])))

-- The lines among what `select` and `std::getline` give.
unfoldable pub lines_of : List Typed → List Bytes
lines_of [] = []
lines_of (typed_line l ∷ rest) = l ∷ lines_of rest
lines_of (_ ∷ rest) = lines_of rest

-- Neither a failure nor the end of the input.
unfoldable pub goes_well : List Typed → Bool
goes_well [] = true
goes_well (typed_line l ∷ rest) = goes_well rest
goes_well (no_input ∷ rest) = goes_well rest
goes_well _ = false

-- The pipe has a descriptor, and the kernel takes what is written.
pub record CanWrite (p : Pipe) : Type 0 where
  pub has_fd : eq_ℤ p.write_fd minus_one ≡ false
  pub no_failure : p.write_fails ≡ false

pub write-CanWrite :
    (p : Pipe) (bytes : Bytes)
    → CanWrite p
    → write p bytes ≡ ok (record p { written = p.written ++ bytes })
unfolding write
write-CanWrite p bytes w = rw (w.has_fd, w.no_failure) refl

run_stdin-text_of_lines :
    (inputs : List Typed) (p signal : Pipe)
    → CanWrite p
    → goes_well inputs ≡ true
    → run_stdin inputs p signal
      ≡ ok (record p { written = p.written ++ text_of_lines (lines_of inputs) }, signal)
unfolding run_stdin lines_of text_of_lines goes_well
run_stdin-text_of_lines [] p signal w g = rw append-nil refl
run_stdin-text_of_lines (typed_line l ∷ rest) p signal w g =
    rw (write-CanWrite p (with_newline l) w) (
      run_stdin-text_of_lines rest (record p { written = p.written ++ with_newline l }) signal
        (record { has_fd = w.has_fd; no_failure = w.no_failure }) g
      ∙ simp append_assoc)
run_stdin-text_of_lines (no_input ∷ rest) p signal w g = run_stdin-text_of_lines rest p signal w g
run_stdin-text_of_lines (select_failed ∷ rest) p signal w g = cc
run_stdin-text_of_lines (end_of_input ∷ rest) p signal w g = cc

-- What is typed, where the pipe can be written to, no input fails or ends, no line holds a \n, and
-- the lines with their ends are at most 1023 bytes, which one read takes: StdinListener writes the
-- text of the lines into the pipe, behind what is there, and a read of the pipe that brings this
-- text enters every line that is not empty, in order, and then returns true, or throws as the first
-- line does that throws.
pub typed_lines-entered :
    (junk : MessageType) (inputs : List Typed) (p signal : Pipe) (l : Listener)
    → CanWrite p
    → goes_well inputs ≡ true
    → OneLineEach (lines_of inputs)
    → length (text_of_lines (lines_of inputs)) ≤ 1023
    → (run_stdin inputs p signal
        ≡ ok (record p { written = p.written ++ text_of_lines (lines_of inputs) }, signal))
      × (listen_stdin junk (chunk (text_of_lines (lines_of inputs))) l ≡ (
          enter_lines junk (nonempty (lines_of inputs)) l.mailbox [] >>= λ r.
          ok (true, record l { mailbox = r.0 }, r.1)))
typed_lines-entered junk inputs p signal l w g h n = (
  run_stdin-text_of_lines inputs p signal w g,
  listen_stdin-enter_lines junk (text_of_lines (lines_of inputs)) l
      ∙ rw (lines_read (lines_of inputs) h n) refl,
)

whole_line :
    (front back : Bytes) → text_of_lines ((front ++ back) ∷ []) ≡ front ++ text_of_lines (back ∷ [])
unfolding text_of_lines
whole_line front back = simp append_assoc refl

take-append : (n : ℕ) (front rest : Bytes) → length front ≡ n → take n (front ++ rest) ≡ front
take-append zero [] rest h = refl
take-append zero (c ∷ front) rest h = absurd (omega (arith, h))
take-append (suc n) [] rest h = absurd (omega (arith, h))
take-append (suc n) (c ∷ front) rest h = ap (◌∷◌ c) (take-append n front rest (omega arith))

-- A line of more than 1022 bytes, which are `front`, its first 1023, and `back`, of at most 1022,
-- where the pipe holds it with its \n: a read of the pipe takes `front` alone and changes nothing,
-- and the next one, which finds the rest, enters `back` as if it were the whole line, unless it is
-- empty.
pub long_line_cut :
    (junk : MessageType) (front back : Bytes) (l : Listener)
    → length front ≡ 1023
    → length back ≤ 1022
    → all not_newline front ≡ true
    → all not_newline back ≡ true
    → (listen_stdin junk (chunk (text_of_lines ((front ++ back) ∷ []))) l ≡ ok (true, l, []))
      × (listen_stdin junk (chunk (text_of_lines (back ∷ []))) l ≡ (
          enter_lines junk (nonempty (back ∷ [])) l.mailbox [] >>= λ r.
          ok (true, record l { mailbox = r.0 }, r.1)))
long_line_cut junk front back l n m f b =
    let taken = take-append 1023 front (text_of_lines (back ∷ [])) n in
    (
      split_line_lost junk (text_of_lines ((front ++ back) ∷ [])) l
          (rw (whole_line front back, taken) f),
      listen_stdin-enter_lines junk (text_of_lines (back ∷ [])) l
          ∙ rw (lines_read (back ∷ []) (b, tt) (text_length back m)) refl,
    )
