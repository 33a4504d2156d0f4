-- ===== src/Terminals/Transmission.antt =====
-- The bytes that a terminal is given: `BeginTtyTransmit` of src/syscalls/tty.c and the transmit
-- interrupts that follow it (`TtyTrapTransmitHandler` of src/traps/trap.c).
use tiny_kernels.Prelude.{
  ℕ, zero, suc, ◌+◌, ◌-◌, ◌*◌, ◌<◌, ◌≤◌, ◌≡◌, refl, sym, ◌∙◌, ap, true, false, some, List, [], ◌∷◌,
  ◌++◌, append_assoc, append-nil, arith, ltb, ◌==◌, if◌then◌else◌, length, take, drop, take-add,
  take-all, subst,
}
use tiny_kernels.Prelude.Int.{pos}
use tiny_kernels.Prelude.Run.{and_then, Returns, bind, mono}
use tiny_kernels.Kernel.{Ptr, null}
use tiny_kernels.Kernel.Scheduling.{NeverFails}
use tiny_kernels.Terminals.{
  Terminals, terminal_max_line, one_line, tty_transmit, begin_tty_transmit, transmit_handler,
  transmit_handlers,
}

abbrev pub concat : List (List ℕ) → List ℕ
concat [] = []
concat (x ∷ xs) = x ++ concat xs

concat-snoc : (xs : List (List ℕ)) (x : List ℕ) → concat (xs ++ x ∷ []) ≡ concat xs ++ x
concat-snoc [] x = append-nil x
concat-snoc (y ∷ xs) x = ap (λ zs. y ++ zs) (concat-snoc xs x) ∙ sym (append_assoc y (concat xs) x)

-- The terminal sends the bytes of `buf`, of which it has been given the first `n`, behind those of
-- `before`. No call of `TtyTransmit` has more than a line.
abbrev pub ShortLines : List (List ℕ) → Type 0
ShortLines [] = Unit
ShortLines (x ∷ xs) = (length x ≤ terminal_max_line) × ShortLines xs

pub record Sending (i : ℕ) (before buf : List ℕ) (n : ℕ) (s : Terminals) : Type 0 where
  pub buffer : (s.terminals i).write_buffer ≡ some buf
  pub size : (s.terminals i).write_buffer_len ≡ length buf
  pub position : (s.terminals i).write_buffer_position ≡ n
  pub bytes : concat (s.terminals i).sent ≡ before ++ take n buf
  pub lines : ShortLines (s.terminals i).sent

ShortLines-snoc :
    (xs : List (List ℕ)) (x : List ℕ)
    → ShortLines xs
    → length x ≤ terminal_max_line
    → ShortLines (xs ++ x ∷ [])
ShortLines-snoc [] x h k = (k, tt)
ShortLines-snoc (y ∷ xs) x (a, h) k = (a, ShortLines-snoc xs x h k)

length-take : (n : ℕ) (xs : List ℕ) → length (take n xs) ≤ n
length-take zero xs = omega arith
length-take (suc n) [] = omega arith
length-take (suc n) (x ∷ xs) = omega (arith, length-take n xs)

-- How many bytes are out after one more line.
abbrev pub after_line : (len n : ℕ) → ℕ
after_line len n = n + one_line (len - n)

-- One more call of `TtyTransmit`.
sent_bytes :
    (sent : List (List ℕ)) (before buf : List ℕ) (n m : ℕ)
    → concat sent ≡ before ++ take n buf
    → concat (sent ++ take m (drop n buf) ∷ []) ≡ before ++ take (n + m) buf
sent_bytes sent before buf n m e =
    concat-snoc sent (take m (drop n buf))
    ∙ ap (λ xs. xs ++ take m (drop n buf)) e
    ∙ append_assoc before (take n buf) (take m (drop n buf))
    ∙ ap (λ xs. before ++ xs) (take-add n m buf)

one_line-short : (n : ℕ) (xs : List ℕ) → length (take (one_line n) xs) ≤ terminal_max_line
one_line-short n xs = ground (arith, length-take (one_line n) xs)

transmit_handler-Sending :
    (i : ℕ) (before buf : List ℕ) (n : ℕ) (s : Terminals)
    → n < length buf
    → Sending i before buf n s
    → Returns (λ _. Sending i before buf (after_line (length buf) n)) (transmit_handler i s)
unfolding transmit_handler tty_transmit
transmit_handler-Sending i before buf n s more d =
    let left : ltb (s.terminals i).write_buffer_position (s.terminals i).write_buffer_len ≡ true =
      rw (d.position, d.size) (ground arith) in
    let self : (i == i) ≡ true = ground arith in
    rw (left, d.buffer, self)
      (record {
        buffer = rw self d.buffer;
        size = rw self d.size;
        position = rw (self, d.position, d.size) refl;
        bytes =
            rw (self, d.position, d.size)
              (sent_bytes (s.terminals i).sent before buf n (one_line (length buf - n)) d.bytes);
        lines =
            rw (self, d.position, d.size)
              (ShortLines-snoc (s.terminals i).sent (take (one_line (length buf - n)) (drop n buf))
                d.lines (one_line-short (length buf - n) (drop n buf)));
      })

-- How many bytes are out after some lines.
abbrev pub bytes_out : (len n rounds : ℕ) → ℕ
bytes_out len n rounds =
    if ltb len (n + rounds * terminal_max_line) then len else n + rounds * terminal_max_line

bytes_out-step :
    (len n m : ℕ)
    → n ≤ len
    → n + suc m * terminal_max_line < len + terminal_max_line
    → bytes_out len (after_line len n) m ≡ bytes_out len n (suc m)
bytes_out-step len n m below due = ground arith

transmit_handlers-Sending :
    (m i : ℕ) (before buf : List ℕ) (n : ℕ) (s : Terminals)
    → n ≤ length buf
    → n + m * terminal_max_line < length buf + terminal_max_line
    → Sending i before buf n s
    → Returns (λ _. Sending i before buf (bytes_out (length buf) n m)) (transmit_handlers m i s)
unfolding transmit_handlers
transmit_handlers-Sending zero i before buf n s below due d =
    let e : bytes_out (length buf) n 0 ≡ n = ground arith in rw e d
transmit_handlers-Sending (suc m) i before buf n s below due d =
    let len = length buf in
    let next : after_line len n ≤ len = ground arith in
    let later : after_line len n + m * terminal_max_line < len + terminal_max_line = ground arith in
    bind (λ _. Sending i before buf (after_line len n))
      (λ _. Sending i before buf (bytes_out len n (suc m))) (transmit_handler i s)
      (λ _. transmit_handlers m i) (transmit_handler-Sending i before buf n s (omega arith) d)
      λ _ t d'.
        subst (λ x. Returns (λ _. Sending i before buf x) (transmit_handlers m i t))
          (bytes_out-step len n m below due)
          (transmit_handlers-Sending m i before buf (after_line len n) t next later d')

-- `BeginTtyTransmit` where it does not fail.
begin_tty_transmit-Sending :
    (i : ℕ) (writer : Ptr) (buf : List ℕ) (s : Terminals)
    → NeverFails s.kernel
    → ShortLines (s.terminals i).sent
    → Returns
        (λ r t. (r ≡ pos 0) × Sending i (concat (s.terminals i).sent) buf (one_line (length buf)) t)
        (begin_tty_transmit i writer buf s)
unfolding begin_tty_transmit
begin_tty_transmit-Sending i writer buf s room short =
    let got : (s.kernel.malloc s.kernel.calls == null) ≡ false =
      ground (arith, room s.kernel.calls) in
    let self : (i == i) ≡ true = ground arith in
    rw (got, self)
      (
        refl,
        record {
          buffer = rw self refl;
          size = rw self refl;
          position = rw self refl;
          bytes = rw self (concat-snoc (s.terminals i).sent (take (one_line (length buf)) buf));
          lines = rw self (
              ShortLines-snoc (s.terminals i).sent (take (one_line (length buf)) buf) short
                (one_line-short (length buf) buf));
        },
      )

-- `BeginTtyTransmit` of a buffer that is not empty, where `malloc` does not fail, and the transmit
-- interrupts that follow it, one less than the buffer has lines of 1024 bytes, all return. The
-- bytes given to `TtyTransmit` for the terminal are those given before and then the bytes of the
-- buffer, each once and in order; no call has more than a line, where this was so before; and the
-- write position is the length of the buffer.
pub transmit_handlers-concat :
    (m i : ℕ) (writer : Ptr) (buf : List ℕ) (s : Terminals)
    → NeverFails s.kernel
    → ShortLines (s.terminals i).sent
    → m * terminal_max_line < length buf
    → length buf ≤ suc m * terminal_max_line
    → Returns
        (λ _ t.
          (concat (t.terminals i).sent ≡ concat (s.terminals i).sent ++ buf)
          × ShortLines (t.terminals i).sent
          × ((t.terminals i).write_buffer_position ≡ length buf))
        (and_then (begin_tty_transmit i writer buf s) (λ _. transmit_handlers m i))
transmit_handlers-concat m i writer buf s room short low high =
    let out : bytes_out (length buf) (one_line (length buf)) m ≡ length buf = ground arith in
    bind
      (λ r t. (r ≡ pos 0) × Sending i (concat (s.terminals i).sent) buf (one_line (length buf)) t) _
      (begin_tty_transmit i writer buf s) (λ _. transmit_handlers m i)
      (begin_tty_transmit-Sending i writer buf s room short)
      λ _ t h.
        mono
          (λ _.
            Sending i (concat (s.terminals i).sent) buf
              (bytes_out (length buf) (one_line (length buf)) m))
          _ _
          (transmit_handlers-Sending m i (concat (s.terminals i).sent) buf (one_line (length buf)) t
            (ground arith) (ground arith) h.1)
          λ _ u d. (
            d.bytes
                ∙ ap (λ xs. concat (s.terminals i).sent ++ xs)
                    (rw out (take-all (length buf) buf (omega arith))),
            d.lines,
            d.position ∙ out,
          )
