-- ===== src/DemoBus/Register.antt =====
-- Registering a device on the demonstration bus, unregistering it, and registering it again.
use open_device.Base.{
  ℕ, ◌≡◌, ◌∙◌, refl, sym, subst, ap, Option, none, some, true, false, List, [], ◌∷◌, if◌then◌else◌,
  if_cases, ℤ, ok, is_nonzero, ebusy, arith, Option-cases, Bool-cases, inl, inr,
}
use open_device.DemoBus.State.{DemoDevice, Resource, is_released}
use open_device.DemoBus.Claim.{
  Kernel, Claimed, claim_parent, with_name, claim_resources, table_of, settle_claims,
  demo_device_add, prepared,
}

-- `demo_device_del`, which takes the device off the bus; none is a null pointer.
unfoldable pub demo_device_del : Option DemoDevice → Option DemoDevice
demo_device_del none = none
demo_device_del (some d) = some (record d { on_bus = false })

-- `demo_device_unregister`: the reference that `demo_device_put` drops is not modelled.
unfoldable pub demo_device_unregister : Option DemoDevice → Option DemoDevice
demo_device_unregister d = demo_device_del d

-- `demo_device_register`; `device_initialize` changes no field of the model.
unfoldable pub demo_device_register :
    (k : Kernel) → DemoDevice → k.Tree → ℤ × Option DemoDevice × k.Tree
demo_device_register k d t = demo_device_add k (some d) t

-- What is documented of a resource that is in the tree: it stays there when another is inserted, and
-- it cannot be inserted again.
pub record TwiceLaws (k : Kernel) (In : ℕ → k.Tree → Type 0) : Type 0 where
  pub insert-In :
      (p r : ℕ) (t : k.Tree) → is_nonzero (k.insert p r t).0 ≡ false → In r (k.insert p r t).1
  pub insert-keeps : (p q r : ℕ) (t : k.Tree) → In r t → In r (k.insert p q t).1
  pub In-busy : (p r : ℕ) (t : k.Tree) → In r t → is_nonzero (k.insert p r t).0 ≡ true

module _ (k : Kernel) where
  open k use {Tree, insert}

  -- The table of resources will begin with `r`.
  abbrev BeginsWith : Resource → List Resource → Type 0
  BeginsWith r ps =
      (left : List Resource) → (tail : List Resource) × (table_of k ps left ≡ r ∷ tail)

  -- A turn of the loop, by the parent that it takes for the resource.
  abbrev turn : ℕ → List Resource → Resource → List Resource → Tree → Option ℕ → Claimed Tree
  turn n ps r rs t none = claim_resources k n (with_name k n r ∷ ps) rs t
  turn n ps r rs t (some p) =
      if is_nonzero (insert p r.addr t).0
      then record {
        ret = ebusy;
        passed = ps;
        left = with_name k n r ∷ rs;
        tree = (insert p r.addr t).1;
      }
      else claim_resources k n (with_name k n r ∷ ps) rs (insert p r.addr t).1

  turn_lem :
      (n : ℕ) (ps : List Resource) (r : Resource) (rs : List Resource) (t : Tree) (m : Option ℕ)
      → claim_parent k r t ≡ m
      → claim_resources k n ps (r ∷ rs) t ≡ turn n ps r rs t m
  unfolding claim_resources
  turn_lem n ps r rs t m e = ap (turn n ps r rs t) e

  no_parent : (r : Resource) (t : Tree) → is_released r ≡ true → claim_parent k r t ≡ none → ⊥
  unfolding claim_parent
  no_parent r t h e = ground arith

  -- What each turn of the loop keeps, the loop keeps.
  module _ (n : ℕ) (Q : List Resource → Tree → Type 0)
      (pass : (ps : List Resource) (r : Resource) (t : Tree) → Q ps t → Q (with_name k n r ∷ ps) t)
      (put : (ps : List Resource) (p : ℕ) (r : Resource) (t : Tree)
        → Q ps t
        → Q ps (insert p r.addr t).1) where
    done :
        (ps : List Resource) (t : Tree)
        → Q ps t
        → Q (claim_resources k n ps [] t).passed (claim_resources k n ps [] t).tree
    unfolding claim_resources
    done ps t q = q

    claim_resources-Q :
        (ps rs : List Resource) (t : Tree)
        → Q ps t
        → Q (claim_resources k n ps rs t).passed (claim_resources k n ps rs t).tree
    claim_resources-Q ps [] t q = done ps t q
    claim_resources-Q ps (r ∷ rs) t q = elim (Option-cases (claim_parent k r t)) [
      | inl e ↦
          subst (λ (c : Claimed Tree). Q c.passed c.tree) (sym (turn_lem n ps r rs t none e))
            (claim_resources-Q (with_name k n r ∷ ps) rs t (pass ps r t q))
      | inr (p, e) ↦
          let u : Tree = (insert p r.addr t).1 in
          let h : Q ps u = put ps p r t q in
          subst (λ (c : Claimed Tree). Q c.passed c.tree) (sym (turn_lem n ps r rs t (some p) e))
            (if_cases (λ (c : Claimed Tree). Q c.passed c.tree) (is_nonzero (insert p r.addr t).0)
              (λ _. h) (λ _. claim_resources-Q (with_name k n r ∷ ps) rs u (pass ps r u h)))
    ]

  -- A resource of memory or of ports is claimed, in every tree.
  has_parent :
      (r : Resource) (t : Tree) → is_released r ≡ true → (p : ℕ) × (claim_parent k r t ≡ some p)
  has_parent r t h = elim (Option-cases (claim_parent k r t)) [
    | inl e ↦ absurd (no_parent r t h e)
    | inr a ↦ a
  ]

  settled_ok :
      (d : DemoDevice) (c : Claimed Tree)
      → is_nonzero (settle_claims k d c).0 ≡ false
      → (is_nonzero c.ret ≡ false)
        × (settle_claims k d c
            ≡ (ok, record d { resources = table_of k c.passed c.left; on_bus = true }, c.tree))
  unfolding settle_claims
  settled_ok d c h = elim (Bool-cases (is_nonzero c.ret)) [
    | inl bad ↦ ground arith
    | inr good ↦ ground arith
  ]

  settled_busy :
      (d : DemoDevice) (c : Claimed Tree) → c.ret ≡ ebusy → (settle_claims k d c).0 ≡ ebusy
  unfolding settle_claims
  settled_busy d c h = rw h refl

module _ (k : Kernel) (In : ℕ → k.Tree → Type 0) (laws : TwiceLaws k In) where
  open k use {Tree, insert}

  -- A claim of a resource that is in the tree.
  busy :
      (d : DemoDevice) (r : Resource) (tail : List Resource) (t : Tree)
      → d.resources ≡ r ∷ tail
      → is_released r ≡ true
      → In r.addr t
      → (demo_device_register k d t).0 ≡ ebusy
  unfolding demo_device_register demo_device_add
  busy d r tail t e m h =
      let n : ℕ = (prepared k d).dev_name in
      let (p, q) = has_parent k r t m in
      settled_busy k (prepared k d) (claim_resources k n [] d.resources t) (
        ap (λ l. (claim_resources k n [] l t).ret) e
        ∙ ap (λ (c : Claimed Tree). c.ret) (turn_lem k n [] r tail t (some p) q)
        ∙ rw (laws.In-busy p r.addr t h) refl)

  -- The first resource of a device that was registered is in the tree, and at the head of its table.
  kept :
      (n : ℕ) (r : Resource) (rs : List Resource) (t : Tree)
      → is_released r ≡ true
      → is_nonzero (claim_resources k n [] (r ∷ rs) t).ret ≡ false
      → let c : Claimed Tree = claim_resources k n [] (r ∷ rs) t in
        BeginsWith k (with_name k n r) c.passed × In r.addr c.tree
  kept n r rs t m h =
      let (p, q) = has_parent k r t m in
      let u : Tree = (insert p r.addr t).1 in
      let named : Resource = with_name k n r in
      let Kept : List Resource → Tree → Type 0 = λ ps v. BeginsWith k named ps × In r.addr v in
      subst (λ (c : Claimed Tree). is_nonzero c.ret ≡ false → Kept c.passed c.tree)
        (sym (turn_lem k n [] r rs t (some p) q))
        (if_cases (λ (c : Claimed Tree). is_nonzero c.ret ≡ false → Kept c.passed c.tree)
          (is_nonzero (insert p r.addr t).0) (λ _ (z : true ≡ false). absurd (ground arith))
          (λ good _.
            claim_resources-Q k n Kept (λ ps v w i. ((λ left. i.0 (with_name k n v ∷ left)), i.1))
              (λ ps o v w i. (i.0, laws.insert-keeps o v.addr r.addr w i.1)) (named ∷ []) rs u
              ((λ left. (left, refl)), laws.insert-In p r.addr t good)))
        h

  -- With the documented laws of the tree: a device whose first resource is memory or ports, and whose
  -- registration on the demonstration bus returned 0, cannot be registered again after it was
  -- unregistered. Unregistering takes it off the bus and leaves its resources in the tree, and the
  -- second registration is refused as busy.
  pub demo_device_register-demo_device_unregister :
      (d : DemoDevice) (r : Resource) (rs : List Resource) (t : Tree)
      → is_released r ≡ true
      → let o = demo_device_register k (record d { resources = r ∷ rs }) t in
        is_nonzero o.0 ≡ false
        → (f : DemoDevice) × (demo_device_unregister o.1 ≡ some f)
          × (f.on_bus ≡ false)
          × In r.addr o.2
          × ((demo_device_register k f o.2).0 ≡ ebusy)
  unfolding demo_device_register demo_device_add demo_device_unregister demo_device_del
  demo_device_register-demo_device_unregister d r rs t m h =
      let e : DemoDevice = prepared k (record d { resources = r ∷ rs }) in
      let c : Claimed Tree = claim_resources k e.dev_name [] (r ∷ rs) t in
      let o : ℤ × DemoDevice × Tree = settle_claims k e c in
      let (good, settled) = settled_ok k e c h in
      let (first, i) = kept e.dev_name r rs t m good in
      let head = first c.left in
      let f : DemoDevice = record o.1 { on_bus = false } in
      let there : In r.addr o.2 =
        subst (λ (p : ℤ × DemoDevice × Tree). In r.addr p.2) (sym settled) i in
      let table : f.resources ≡ with_name k e.dev_name r ∷ head.0 =
        ap (λ (p : ℤ × DemoDevice × Tree). p.1.resources) settled ∙ head.1 in
      (f, refl, refl, there, busy f (with_name k e.dev_name r) head.0 o.2 table m there)
