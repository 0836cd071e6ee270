-- ===== src/Tty/State.antt =====
-- `struct dummy_uart_port` as the transmission uses it, with `dummy_start_tx`, `dummy_tx_empty`,
-- `dummy_read` and `dummy_poll`.
use open_device.Base.{
  ℕ, zero, suc, ◌+◌, ◌-◌, ◌%◌, ◌^◌, Option, none, some, Bool, true, false, List, [], ◌∷◌, ◌==◌, ltb,
  if◌then◌else◌, bit_or,
}

-- `UART_XMIT_SIZE`, a page; the index of the circular buffer is masked with this less 1.
abbrev pub uart_xmit_size : ℕ
uart_xmit_size = 4096

-- `buf`, `head` and `tail` are the circular buffer of the serial core, `write_ok` the completion.
pub record Uart : Type 0 where
  pub buf : ℕ → ℕ
  pub head : ℕ
  pub tail : ℕ
  pub tx_fifo : ℕ → ℕ
  pub tx_len : ℕ
  pub tx_fifo_size : ℕ
  pub icount_tx : ℕ
  pub write_ok : Bool

-- The body of the loop, up to the test of `uart_circ_empty`.
unfoldable pub push_char : Uart → Uart
push_char u = record u {
  tx_fifo = λ i. if i == u.tx_len then u.buf u.tail else u.tx_fifo i;
  tx_len = u.tx_len + 1;
  tail = (u.tail + 1) % 4096;
  icount_tx = (u.icount_tx + 1) % 2 ^ 32;
}

-- The `do` loop of `dummy_start_tx`, on fuel; `none` is fuel that ran out.
unfoldable pub tx_loop : ℕ → Uart → Option Uart
tx_loop zero u = none
tx_loop (suc fuel) u =
    let v : Uart = push_char u in
    let further : Option Uart = tx_loop fuel v in
    if v.head == v.tail then some v else if ltb v.tx_len v.tx_fifo_size then further else some v

-- `dummy_start_tx`, up to the wait for the completion that it initialises.
unfoldable pub start_tx : Uart → Option Uart
start_tx u = elim (tx_loop (u.tx_fifo_size - u.tx_len + 1) u) [
  | none ↦ none
  | some v ↦ some (record v { write_ok = false })
]

-- `TIOCSER_TEMT` is 1.
unfoldable pub tx_empty : Uart → ℕ
tx_empty u = if ltb 0 u.tx_len then 0 else 1

-- `POLLIN | POLLRDNORM`, or 0.
unfoldable pub poll : Uart → ℕ
poll u = if u.tx_len == 0 then 0 else bit_or 1 64

-- The `n` bytes of a FIFO from byte `i` on.
abbrev pub bytes_at : (ℕ → ℕ) → ℕ → ℕ → List ℕ
bytes_at f i zero = []
bytes_at f i (suc n) = f i ∷ bytes_at f (i + 1) n

-- `dummy_read`: the bytes copied, their number the result.
unfoldable pub dummy_read : ℕ → Uart → List ℕ × Uart
dummy_read size u =
    let n : ℕ = if ltb u.tx_len size then u.tx_len else size in
    let left : ℕ = u.tx_len - n in
    (
      bytes_at u.tx_fifo 0 n,
      record u { tx_len = left; write_ok = if left == 0 then true else u.write_ok },
    )
