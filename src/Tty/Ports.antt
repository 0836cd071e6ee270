-- ===== src/Tty/Ports.antt =====
-- All the ports of tty.c: the module's start and end, the probe and the removal over every port, and the
-- port that an open finds.
use open_device.Base.{
  ℕ, ◌+◌, ◌-◌, ◌≡◌, ◌∙◌, refl, ap, none, some, Bool, true, false, not, List, [], ◌∷◌, get_elem?,
  ltb, if◌then◌else◌, ℤ, ok, is_nonzero, einval, Bool-cases, inl, inr, arith,
}
use open_device.Tty.Create.{
  Grants, Made, nothing_made, create_manager_device, create_manager_device-Outcome,
}

-- What following an entry of `dummy_array` meets: a port; NULL, where none was entered; memory that has
-- been freed; or no entry of the array.
pub data Entry : Type 0 where
  port : ℕ → Entry
  null : Entry
  freed : Entry
  outside : Entry

abbrev pub entry_of : ℕ → Made → Entry
entry_of i m = if m.listed then (if m.dummy then port i else freed) else null

-- The loop of `serial_dummy_probe`, one creation for each port, whose results are only printed. What
-- the creations leave, and whether `dummy_serial_major` is set.
unfoldable pub probe_ports : List Grants → Bool → List Made × Bool
probe_ports [] major = ([], major)
probe_ports (g ∷ gs) major =
    let m = (create_manager_device g (nothing_made major)).1 in
    let rest = probe_ports gs m.has_major in (m ∷ rest.0, rest.1)

-- `serial_dummy_probe`.
unfoldable pub serial_dummy_probe : List Grants → ℤ × List Made
serial_dummy_probe gs = (ok, (probe_ports gs false).0)

-- The loop of `serial_dummy_remove` from port `i` on: the first port whose entry does not stand for
-- one stops it, otherwise the number of ports that it has freed.
pub data Removal : Type 0 where
  removed : ℕ → Removal
  stopped : ℕ → Entry → Removal

unfoldable pub remove_ports : ℕ → List Made → Removal
remove_ports i [] = removed i
remove_ports i (m ∷ ms) =
    let rest = remove_ports (i + 1) ms in
    if m.listed then (if m.dummy then rest else stopped i freed) else stopped i null

unfoldable pub serial_dummy_remove : List Made → Removal
serial_dummy_remove ms = remove_ports 0 ms

-- `dummy_open`; `ms` are the ports that were probed, of an array of four.
unfoldable pub dummy_open : ℕ → ℕ → List Made → Entry
dummy_open start minor ms =
    if ltb 3 (minor - start)
    then outside
    else elim (get_elem? ms (minor - start)) [ none ↦ null | some m ↦ entry_of (minor - start) m ]

-- What the module has registered, and what the calls that register it return.
pub record Registered : Type 0 where
  pub platform_device : Bool
  pub class : Bool
  pub uart_driver : Bool
  pub platform_driver : Bool

pub record InitAnswers : Type 0 where
  pub device : ℤ
  pub uart : ℤ
  pub driver : ℤ

abbrev pub unregistered : Registered
unregistered = record {
  platform_device = false;
  class = false;
  uart_driver = false;
  platform_driver = false;
}

-- `serial_dummy_init`. The result of the platform device is overwritten.
unfoldable pub serial_dummy_init : ℕ → InitAnswers → ℤ × Registered
serial_dummy_init nr a =
    let r : Registered = record unregistered {
      platform_device = not (is_nonzero a.device);
      class = true;
    } in
    if ltb 4 nr
    then (einval, unregistered)
    else if is_nonzero a.uart
    then (einval, r)
    else if is_nonzero a.driver
    then (a.driver, record r { platform_device = false })
    else (ok, record r { uart_driver = true; platform_driver = true })

unfoldable pub serial_dummy_exit : Registered → Registered
serial_dummy_exit r = record r {
  platform_driver = false;
  uart_driver = false;
  class = false;
  platform_device = false;
}

-- What the removal makes of the results of the creations: it stops at the first that failed.
abbrev pub expected : ℕ → List Grants → Bool → Removal
expected i [] major = removed i
expected i (g ∷ gs) major =
    let o : ℤ × Made = create_manager_device g (nothing_made major) in
    let rest = expected (i + 1) gs o.1.has_major in
    if is_nonzero o.0 then stopped i (if o.1.listed then freed else null) else rest

created_listed :
    (g : Grants) (major : Bool)
    → is_nonzero (create_manager_device g (nothing_made major)).0 ≡ false
    → (create_manager_device g (nothing_made major)).1.listed ≡ true
unfolding create_manager_device
created_listed g major h = ground arith

stopped_either :
    (i : ℕ) (listed : Bool)
    → (if listed then stopped i freed else stopped i null)
      ≡ stopped i (if listed then freed else null)
stopped_either i true = refl
stopped_either i false = refl

remove_ports-expected :
    (i : ℕ) (gs : List Grants) (major : Bool)
    → remove_ports i (probe_ports gs major).0 ≡ expected i gs major
unfolding remove_ports probe_ports
remove_ports-expected i [] major = refl
remove_ports-expected i (g ∷ gs) major =
    let o : ℤ × Made = create_manager_device g (nothing_made major) in
    let e = create_manager_device-Outcome g major in
    let ih = remove_ports-expected (i + 1) gs o.1.has_major in
    elim (Bool-cases (is_nonzero o.0)) [
      | inl bad ↦
          let d : o.1.dummy ≡ false = e.dummy ∙ ap not bad in
          rw (bad, d) (stopped_either i o.1.listed)
      | inr good ↦
          let d : o.1.dummy ≡ true = e.dummy ∙ ap not good in
          rw (good, d, created_listed g major good) ih
    ]

-- Whatever the kernel answers to the creations of the ports, the probe returns 0; the removal behind it
-- frees all of them if each creation returned 0. Otherwise it stops at the first that failed: there it
-- follows a null pointer, or, where the creation failed after the port was added, a pointer to freed
-- memory.
pub serial_dummy_remove-serial_dummy_probe :
    (gs : List Grants)
    → ((serial_dummy_probe gs).0 ≡ ok)
      × (serial_dummy_remove (serial_dummy_probe gs).1 ≡ expected 0 gs false)
unfolding serial_dummy_remove serial_dummy_probe
serial_dummy_remove-serial_dummy_probe gs = (refl, remove_ports-expected 0 gs false)
