-- ===== src/DemoBus/Claim.antt =====
-- `demo_device_add` of the demonstration bus: the claim of a device's resources, and their release
-- when a claim or the addition fails.
use open_device.Base.{
  ℕ, ◌≡◌, Option, none, some, is_some, Bool, true, false, List, [], ◌∷◌, ◌==◌, if◌then◌else◌, ℤ,
  negsuc, ok, eq_ret, is_nonzero, ebusy, einval,
}
use open_device.DemoBus.State.{DemoDevice, Resource, ioresource_io, ioresource_mem, is_released}

-- The kernel's tree of resources, and what else the bus calls. `parent` is `r->parent` of the
-- resource at an address; `insert` takes the address of a parent and of a resource.
pub record Kernel : Type 1 where
  pub Tree : Type 0
  pub parent : ℕ → Tree → Option ℕ
  pub insert : ℕ → ℕ → Tree → ℤ × Tree
  pub release : ℕ → Tree → Tree
  pub iomem : ℕ
  pub ioport : ℕ
  pub bus_root : ℕ
  pub numbered_text : ℕ → ℤ → ℕ
  pub add_answer : ℤ

-- What is documented of the tree: a failed insertion changes nothing, and releasing the resource that
-- was inserted last takes back its insertion, unless it has adopted resources that were there: a
-- resource that is inserted over others becomes their parent, and they go with it. `adopts` says
-- whether an insertion does.
pub record TreeLaws (k : Kernel) (adopts : ℕ → ℕ → k.Tree → Bool) : Type 0 where
  pub insert-fails :
      (p r : ℕ) (t : k.Tree) → is_nonzero (k.insert p r t).0 ≡ true → (k.insert p r t).1 ≡ t
  pub release-insert :
      (p r : ℕ) (t : k.Tree)
      → is_nonzero (k.insert p r t).0 ≡ false
      → adopts p r t ≡ false
      → k.release r (k.insert p r t).1 ≡ t

-- What the loop leaves: the result, the resources before index `i`, the last one first, the resources
-- from there on, the tree.
pub record Claimed (T : Type 0) : Type 0 where
  pub ret : ℤ
  pub passed : List Resource
  pub left : List Resource
  pub tree : T

module _ (k : Kernel) where
  open k use {Tree, parent, insert, release, iomem, ioport, bus_root, numbered_text, add_answer}

  -- The parent to insert a resource under.
  unfoldable pub claim_parent : Resource → Tree → Option ℕ
  claim_parent r t = elim (parent r.addr t) [
    | some p ↦ some p
    | none ↦
        if r.kind == ioresource_mem
        then some iomem
        else if r.kind == ioresource_io
        then some ioport
        else none
  ]

  abbrev pub with_name : ℕ → Resource → Resource
  with_name n r = record r { name = if is_some r.name then r.name else some n }

  unfoldable pub claim_resources : ℕ → List Resource → List Resource → Tree → Claimed Tree
  claim_resources n passed [] t = record { ret = ok; passed = passed; left = []; tree = t }
  claim_resources n passed (r ∷ rs) t = elim (claim_parent r t) [
    | none ↦ claim_resources n (with_name n r ∷ passed) rs t
    | some p ↦
        let rest = claim_resources n (with_name n r ∷ passed) rs (insert p r.addr t).1 in
        if is_nonzero (insert p r.addr t).0
        then record {
          ret = ebusy;
          passed = passed;
          left = with_name n r ∷ rs;
          tree = (insert p r.addr t).1;
        }
        else rest
  ]

  -- `while (--i >= 0)`.
  unfoldable pub release_resources : List Resource → Tree → Tree
  release_resources [] t = t
  release_resources (r ∷ rs) t =
      release_resources rs (if is_released r then release r.addr t else t)

  -- The resources in the order of the table.
  abbrev pub table_of : List Resource → List Resource → List Resource
  table_of [] left = left
  table_of (r ∷ passed) left = table_of passed (r ∷ left)

  unfoldable pub device_name : DemoDevice → ℕ
  device_name d = if eq_ret d.id (negsuc 0) then d.name else numbered_text d.name d.id

  -- The fields set before the loop.
  abbrev pub prepared : DemoDevice → DemoDevice
  prepared d = record d {
    parent = (if is_some d.parent then d.parent else some bus_root);
    dev_name = device_name d;
  }

  -- From the end of the loop on: `device_add`, and the label `failed`.
  unfoldable pub settle_claims : DemoDevice → Claimed Tree → ℤ × DemoDevice × Tree
  settle_claims d c =
      let e : DemoDevice = record d { resources = table_of c.passed c.left } in
      if is_nonzero c.ret
      then (c.ret, e, release_resources c.passed c.tree)
      else if is_nonzero add_answer
      then (add_answer, e, release_resources c.passed c.tree)
      else (ok, record e { on_bus = true }, c.tree)

  -- `demo_device_add`; `none` is a null pointer.
  unfoldable pub demo_device_add : Option DemoDevice → Tree → ℤ × Option DemoDevice × Tree
  demo_device_add none t = (einval, none, t)
  demo_device_add (some d) t =
      let e : DemoDevice = prepared d in
      let (ret, f, u) = settle_claims e (claim_resources e.dev_name [] e.resources t) in
      (ret, some f, u)
