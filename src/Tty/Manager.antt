-- ===== src/Tty/Manager.antt =====
-- The manager's side of a port of tty.c: what it writes, how it is told of new settings, and the calls of
-- the serial core that keep a value.
use mathlib.Core.List.{append-nil, append_assoc}
use open_device.Base.{
  ℕ, zero, suc, ◌+◌, ◌%◌, ◌^◌, ◌≤◌, ◌≡◌, ◌∙◌, refl, sym, ap, ap₂, Option, none, some, Bool, true,
  false, not, List, [], ◌∷◌, ◌++◌, ◌==◌, ltb, if◌then◌else◌, ℤ, pos, ok, eio, arith,
}
use open_device.Tty.State.{bytes_at}

-- The rest of `struct dummy_uart_port`. `flip` are the bytes handed to the terminal, in order, `pushes` how
-- often they were pushed, `signals` how often the manager was signalled; `async_queue` is whether that
-- pointer is set, `manager_activie` the completion.
pub record Port : Type 0 where
  pub rx_fifo : ℕ → ℕ
  pub rx_len : ℕ
  pub rx_fifo_size : ℕ
  pub icount_rx : ℕ
  pub flip : List ℕ
  pub pushes : ℕ
  pub baud : ℕ
  pub mctrl : ℕ
  pub has_state : Bool
  pub async_queue : Bool
  pub manager_reset : Bool
  pub manager_activie : Bool
  pub signals : ℕ

-- A return, or a copy behind the end of `rx_fifo`.
pub data Written : Type 0 where
  written : ℤ → Port → Written
  beyond : Written

-- The loop of `dummy_write`, `n` bytes from byte `i` on.
unfoldable pub insert_chars : ℕ → ℕ → Port → Port
insert_chars zero i p = p
insert_chars (suc n) i p =
    insert_chars n (i + 1)
      (record p { icount_rx = (p.icount_rx + 1) % 2 ^ 32; flip = p.flip ++ p.rx_fifo i ∷ [] })

-- `dummy_write`; `opened` is whether `private_data` is set.
unfoldable pub dummy_write : Bool → ℕ → (ℕ → ℕ) → Port → Written
unfolding insert_chars
dummy_write opened size buf p =
    let copied : Port = record p {
      rx_fifo = λ i. if ltb i size then buf i else p.rx_fifo i;
      rx_len = size;
    } in
    let inserted : Port = insert_chars size 0 copied in
    if not opened
    then written eio p
    else if not p.has_state
    then written eio p
    else if ltb p.rx_fifo_size size
    then beyond
    else written (pos size) (record inserted { pushes = inserted.pushes + 1 })

-- `kill_fasync` on a queue that is set, or not.
abbrev pub kill_fasync : Port → Port
kill_fasync p = if p.async_queue then record p { signals = p.signals + 1 } else p

-- `dummy_fasync`; `on` is whether `fasync_helper` leaves the queue set.
unfoldable pub dummy_fasync : Bool → Port → Port
dummy_fasync on p =
    let queued : Port = record p { async_queue = on } in
    let told : Port =
      if queued.manager_reset
      then kill_fasync (record queued { manager_reset = false })
      else queued in
    record told { manager_activie = true }

-- `dummy_release`.
unfoldable pub dummy_release : Port → Port
unfolding dummy_fasync
dummy_release p = record (dummy_fasync false p) { async_queue = false; manager_reset = true }

-- `dummy_set_termios` up to its wait, and whether it waits; and from there on.
unfoldable pub set_termios : ℕ → Port → Bool × Port
set_termios baud p =
    let set : Port = record p { baud = baud } in
    if not p.async_queue then (true, record set { manager_activie = false }) else (false, set)

unfoldable pub after_wait : Port → Port
after_wait p = kill_fasync p

unfoldable pub dummy_set_mctrl : ℕ → Port → Port
dummy_set_mctrl mctrl p = record p { mctrl = mctrl }

unfoldable pub dummy_get_mctrl : Port → ℕ
dummy_get_mctrl p = p.mctrl

-- `dummy_ioctl`: the result is 0, and what is copied to the user, if anything.
unfoldable pub dummy_ioctl : ℕ → Port → ℤ × Option ℕ
dummy_ioctl cmd p = (ok, if cmd == 0xde then some p.baud else none)

insert_chars_flip :
    (n i : ℕ) (p : Port) → (insert_chars n i p).flip ≡ p.flip ++ bytes_at p.rx_fifo i n
unfolding insert_chars
insert_chars_flip zero i p = sym (append-nil p.flip)
insert_chars_flip (suc n) i p =
    let q : Port = record p {
      icount_rx = (p.icount_rx + 1) % 2 ^ 32;
      flip = p.flip ++ p.rx_fifo i ∷ [];
    } in
    insert_chars_flip n (i + 1) q
    ∙ append_assoc p.flip (p.rx_fifo i ∷ []) (bytes_at p.rx_fifo (i + 1) n)

-- The bytes handed on are those of the user, as far as the copy goes.
bytes_at_copied :
    (buf old : ℕ → ℕ) (size n i : ℕ)
    → i + n ≤ size
    → bytes_at (λ j. if ltb j size then buf j else old j) i n ≡ bytes_at buf i n
bytes_at_copied buf old size zero i h = refl
bytes_at_copied buf old size (suc n) i h =
    let e : (if ltb i size then buf i else old i) ≡ buf i = ground arith in
    ap₂ (λ x xs. x ∷ xs) e (bytes_at_copied buf old size n (i + 1) (omega arith))

-- A write that fits into `rx_fifo`, of an open port that is in use: it returns the size, and hands the
-- bytes of the user to the terminal in their order, behind those from before.
pub record Delivered (size : ℕ) (buf : ℕ → ℕ) (p : Port) (o : Written) : Type 0 where
  pub last : Port
  pub returned : o ≡ written (pos size) last
  pub flip : last.flip ≡ p.flip ++ bytes_at buf 0 size

pub dummy_write-Delivered :
    (size : ℕ) (buf : ℕ → ℕ) (p : Port)
    → p.has_state ≡ true
    → size ≤ p.rx_fifo_size
    → Delivered size buf p (dummy_write true size buf p)
unfolding dummy_write
dummy_write-Delivered size buf p h g =
    let copied : Port = record p {
      rx_fifo = λ i. if ltb i size then buf i else p.rx_fifo i;
      rx_len = size;
    } in
    let inserted : Port = insert_chars size 0 copied in
    record {
      last = record inserted { pushes = inserted.pushes + 1 };
      returned = ground arith;
      flip =
          insert_chars_flip size 0 copied
          ∙ ap (λ xs. p.flip ++ xs) (bytes_at_copied buf p.rx_fifo size size 0 (omega arith));
    }

-- After a release, new settings make the serial core wait; the next manager that asks for signals ends the
-- wait, is signalled, and is signalled again by the call that waited.
pub set_termios_after_release :
    (baud : ℕ) (p : Port)
    → let s = set_termios baud (dummy_release p) in
      let m : Port = dummy_fasync true s.1 in
      (s.0 ≡ true)
      × ((s.1.manager_activie ≡ false)
          × ((m.manager_activie ≡ true)
              × ((m.signals ≡ s.1.signals + 1) × ((after_wait m).signals ≡ m.signals + 1))))
unfolding set_termios dummy_release dummy_fasync after_wait
set_termios_after_release baud p = (refl, (refl, (refl, (refl, refl))))
