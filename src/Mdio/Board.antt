-- ===== src/Mdio/Board.antt =====
-- A controller and a memory to run the MDIO driver on.
use open_device.Base.{
  none, ℕ, ◌+◌, ◌-◌, ◌*◌, ◌/◌, ◌%◌, ◌^◌, ◌≡◌, ◌∙◌, refl, ap, false, not, ◌&&◌, ◌==◌, if◌then◌else◌,
  some, ok, bit_and, arith, ltb, Bool-cases, inl, inr, sym,
}
use open_device.Mdio.Command.{geth_mdio_addr, mii_busy}
use open_device.Mdio.Bus.{Registers, Controller, ControllerLaws}
use open_device.Mdio.Misc.{UserAccess}
use open_device.Mdio.User.{UserMemory, Stack}
use open_device.Mdio.Api.{UserLaws}

-- A transfer takes two reads of the address register.
pub record Board : Type 0 where
  pub busy : ℕ
  pub data_register : ℕ
  pub phys : ℕ → ℕ → ℕ

abbrev pub readl : ℕ → Board → ℕ × Board
readl a b =
    if a == geth_mdio_addr
    then (if b.busy == 0 then 0 else 1, record b { busy = b.busy - 1 })
    else (b.data_register, b)

abbrev pub start : ℕ → Board → Board
start v b =
    if v % 4 == 3
    then record b {
      busy = 2;
      phys = λ x y.
          if (x == v / 2 ^ 12 % 32) && (y == v / 2 ^ 4 % 128) then b.data_register else b.phys x y;
    }
    else record b { busy = 2; data_register = b.phys (v / 2 ^ 12 % 32) (v / 2 ^ 4 % 128) }

abbrev pub writel : ℕ → ℕ → Board → Board
writel a v b = if a == geth_mdio_addr then start v b else record b { data_register = v % 2 ^ 16 }

abbrev pub board : Registers
board = record { World = Board; readl = readl; writel = writel }

abbrev pub controller : Controller board
controller = record {
  phy = λ x y b. b.phys x y;
  left = λ b. b.busy;
  latched = λ b. b.data_register;
  turns = 2;
}

busy_shown : (n : ℕ) → (bit_and (if n == 0 then 0 else 1) mii_busy == 1) ≡ not (n == 0)
busy_shown n = elim (Bool-cases (n == 0)) [
  | inl e ↦ ap (λ b. bit_and (if b then 0 else 1) mii_busy == 1) e ∙ ap not (sym e)
  | inr e ↦ ap (λ b. bit_and (if b then 0 else 1) mii_busy == 1) e ∙ ap not (sym e)
]

pub board-ControllerLaws : ControllerLaws board controller
board-ControllerLaws = record {
  poll-busy = λ b. busy_shown b.busy;
  poll-left = λ b. refl;
  poll-Same = λ b. record { phy = λ x y. refl; latched = refl };
  data-value = λ b h. refl;
  data-left = λ b. refl;
  data-Same = λ b. record { phy = λ x y. refl; latched = refl };
  put-latched = λ v b. refl;
  put-left = λ v b. refl;
  put-phy = λ x y v b. refl;
  start-left = λ v b. ground arith;
  read-latched = λ v b h k. ground arith;
  read-phy = λ x y v b h k. ground arith;
  write-phy = λ x y v b h k. ground arith;
}

abbrev pub fresh : Board
fresh = record { busy = 1; data_register = 0; phys = λ x y. x * 100 + y }

-- Bytes.
abbrev pub store : ℕ → ℕ → (ℕ → ℕ) → ℕ → ℕ
store a v m = λ x. if x == a then v % 256 else m x

abbrev pub store_int : ℕ → ℕ → (ℕ → ℕ) → ℕ → ℕ
store_int a v m =
    store a v (store (a + 1) (v / 256) (store (a + 2) (v / 65536) (store (a + 3) (v / 16777216) m)))

abbrev pub load_int : ℕ → (ℕ → ℕ) → ℕ
load_int a m =
    m a % 256 + m (a + 1) % 256 * 256 + m (a + 2) % 256 * 65536 + m (a + 3) % 256 * 16777216

abbrev pub clear : ℕ → ℕ → (ℕ → ℕ) → ℕ → ℕ
clear a n m = λ x. if not (ltb x a) && ltb x (a + n) then 0 else m x

abbrev pub access : UserAccess
access = record {
  Memory = ℕ → ℕ;
  get_user = λ a m. (ok, load_int a m);
  put_user = λ a v m. (ok, store_int a v m);
  copy_from_user = λ a m. (false, m a);
  copy_to_user = λ a v m. (false, store a v m);
  memset = λ a n m. if a == 0 then none else some (clear a n m);
  vfs = λ cmd a m. if cmd == 2 then some (ok, store_int a 4096 m) else none;
}

abbrev pub program : UserMemory access
program = record { load = λ a m. m a; store = store; store_int = store_int }

abbrev pub stack : Stack
stack = record { reg = 10; value = 9; id = 14 }

pub access-UserLaws : UserLaws access program stack
access-UserLaws = record {
  sized = store_int 10 4096;
  vfs-figetbsz = λ m. refl;
  vfs-passes = λ m. refl;
  get_user-id = λ v m h. omega arith;
  copy_from_user-value = λ v b m. refl;
  cleared = clear 9 1;
  memset-value = λ m. refl;
  copy_to_user-value = λ b m. refl;
  load-value = λ b m. refl;
}
