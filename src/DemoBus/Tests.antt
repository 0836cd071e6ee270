-- ===== src/DemoBus/Tests.antt =====
-- A tree of resources that is the list of the claimed ones, and a device with a resource of each kind.
use open_device.Base.{
  ℕ, ◌+◌, ◌≡◌, refl, none, some, Bool, true, false, List, [], ◌∷◌, ◌==◌, ==_refl, arith, has,
  if◌then◌else◌, ℤ, pos, ok, ebusy,
}
use open_device.DemoBus.State.{
  DemoDevice, Resource, ioresource_io, get_resource, get_resource_byname,
}
use open_device.DemoBus.Claim.{
  Kernel, claim_parent, claim_resources, release_resources, settle_claims, demo_device_add,
}
use open_device.DemoBus.Register.{
  demo_device_register, demo_device_unregister, TwiceLaws,
  demo_device_register-demo_device_unregister,
}
use open_device.DemoBus.Probe.{
  Answers, demo_probe, demo_remove, demo_resources, probe_memory, probe_map, probe_io,
}
use open_device.DemoBus.Held.{unheld, HeldAsSaid, demo_probe-HeldAsSaid}
use open_device.DemoBus.Removal.{demo_remove-demo_probe}

abbrev insert_one : ℕ → ℕ → List ℕ → ℤ × List ℕ
insert_one p r t = if has r t then (ebusy, t) else (ok, r ∷ t)

abbrev release_one : ℕ → List ℕ → List ℕ
release_one r [] = []
release_one r (x ∷ xs) = if r == x then xs else x ∷ xs

abbrev small_kernel : Kernel
small_kernel = record {
  Tree = List ℕ;
  parent = λ r t. none;
  insert = insert_one;
  release = release_one;
  iomem = 1000;
  ioport = 1001;
  bus_root = 1002;
  numbered_text = λ name id. name + 100;
  add_answer = ok;
}

-- Its resources are one beside the other.
abbrev adopts_none : ℕ → ℕ → List ℕ → Bool
adopts_none p r t = false

-- The memory of the second resource is taken.
abbrev board : DemoDevice
board = record {
  name = 5;
  id = pos 3;
  id_entry = none;
  resources = demo_resources;
  dev_name = 0;
  parent = none;
  on_bus = false;
}

second_is_busy : (demo_device_add small_kernel (some board) (2 ∷ [])).0 ≡ ebusy
unfolding demo_device_add claim_resources claim_parent settle_claims release_resources
second_is_busy = refl

both_claimed : (demo_device_add small_kernel (some board) []).2 ≡ 2 ∷ 1 ∷ []
unfolding demo_device_add claim_resources claim_parent settle_claims release_resources
both_claimed = refl

abbrev willing : Answers
willing = record {
  kmalloc = some 64;
  region_free = λ start size. true;
  ioremap = λ start size. some (start + 4096);
}

-- A device with two port resources.
abbrev full_board : List Resource
full_board =
    record { addr = 3; name = none; start = 16; stop = 31; kind = ioresource_io } ∷ demo_resources

held_example : HeldAsSaid (demo_probe willing demo_resources unheld)
held_example = demo_probe-HeldAsSaid willing demo_resources

removal_example :
    demo_remove full_board (demo_probe willing full_board unheld).1 ≡ some (ok, unheld)
unfolding demo_probe probe_memory probe_map probe_io get_resource get_resource_byname
removal_example = demo_remove-demo_probe willing full_board refl

-- A resource that is in the tree.
abbrev InTree : ℕ → List ℕ → Type 0
InTree r t = has r t ≡ true

small_kernel-TwiceLaws : TwiceLaws small_kernel InTree
small_kernel-TwiceLaws = record {
  insert-In = λ p r t h. ground (arith, ==_refl r);
  insert-keeps = λ p q r t h. ground arith;
  In-busy = λ p r t h. ground arith;
}

abbrev port_of_board : Resource
port_of_board = record { addr = 7; name = none; start = 1; stop = 2; kind = ioresource_io }

registered_twice :
    let o =
      demo_device_register small_kernel (record board { resources = port_of_board ∷ [] }) [] in
    (f : DemoDevice) × (demo_device_unregister o.1 ≡ some f)
    × (f.on_bus ≡ false)
    × InTree 7 o.2
    × ((demo_device_register small_kernel f o.2).0 ≡ ebusy)
unfolding demo_device_register demo_device_add claim_resources claim_parent settle_claims
registered_twice =
    demo_device_register-demo_device_unregister small_kernel InTree small_kernel-TwiceLaws board
      port_of_board [] [] refl refl
