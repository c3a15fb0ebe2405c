-- ===== src/Dynamic/Slots.antt =====
-- The loops of runtime_macro_dynamic.c over the slots: what each does to one slot.
use zmk_module_runtime_macro.Base.{
  ℕ, zero, suc, ◌+◌, ◌≤◌, ◌<◌, ◌≡◌, refl, sym, ap, ◌∙◌, inl, inr, Bool, ◌&&◌, arith, ltb, leb, ◌==◌,
  if◌then◌else◌, lt→ltb, le→leb, leb-false, ==_iff, Bool-cases,
}
use zmk_module_runtime_macro.Config.{Config}
use zmk_module_runtime_macro.Dynamic.Defs.{
  DynamicSlot, Dynamic, for_slots, cleared, clear_committed, cancel_staging, expire_slot, is_due,
  expire_if_due, rearm, expire_due,
}

-- A loop keeps what its body keeps.
pub for_slots_inv {ℓ} :
    (P : Dynamic → Type ℓ) (body : ℕ → Dynamic → Dynamic) (n left slot : ℕ) (d : Dynamic)
    → ((i : ℕ) (e : Dynamic) → i < n → P e → P (body i e))
    → slot + left ≤ n
    → P d
    → P (for_slots body left slot d)
unfolding for_slots
for_slots_inv P body n zero slot d keep h p = p
for_slots_inv P body n (suc left) slot d keep h p =
    for_slots_inv P body n left (slot + 1) (body slot d) keep (omega arith)
      (keep slot d (omega arith) p)

-- Whether a loop of so many rounds from a slot on comes to a slot.
abbrev pub visits : ℕ → ℕ → ℕ → Bool
visits left slot j = leb slot j && ltb j (slot + left)

-- A loop whose body changes only its own slot, by a function of that slot.
pub for_slots_pointwise :
    (g : DynamicSlot → DynamicSlot) (body : ℕ → Dynamic → Dynamic)
    → ((i : ℕ) (d : Dynamic) (j : ℕ)
        → (body i d).slots j ≡ (if i == j then g (d.slots j) else d.slots j))
    → (left slot : ℕ) (d : Dynamic) (j : ℕ)
    → (for_slots body left slot d).slots j
      ≡ (if visits left slot j then g (d.slots j) else d.slots j)
unfolding for_slots
for_slots_pointwise g body one zero slot d j = ground arith
for_slots_pointwise g body one (suc left) slot d j =
    for_slots_pointwise g body one left (slot + 1) (body slot d) j
    ∙ step (d.slots j) ((body slot d).slots j) (one slot d j)
  where
    step :
        (e e' : DynamicSlot)
        → e' ≡ (if slot == j then g e else e)
        → (if visits left (slot + 1) j then g e' else e')
          ≡ (if visits (suc left) slot j then g e else e)
    step e e' q = elim (Bool-cases (slot == j)) [
      | inl same ↦
          rw
            (
              le→leb slot j (ground arith),
              lt→ltb j (slot + suc left) (ground arith),
              leb-false (slot + 1) j (ground arith),
            )
            (q ∙ rw same)
      | inr differ ↦ rw (q, differ) (ground arith)
    ]

pub clear_committed-slots :
    (i : ℕ) (d : Dynamic) (j : ℕ)
    → (clear_committed i d).slots j ≡ (if i == j then cleared (d.slots j) else d.slots j)
unfolding clear_committed
clear_committed-slots i d j = elim (Bool-cases (i == j)) [
  | inl same ↦ rw same (ap (λ k. cleared (d.slots k)) ((==_iff i j).0 same))
  | inr differ ↦ rw differ
]

pub expire_slot-slots :
    (i : ℕ) (d : Dynamic) (j : ℕ)
    → (expire_slot i d).slots j ≡ (if i == j then cleared (d.slots j) else d.slots j)
unfolding expire_slot cancel_staging
expire_slot-slots i d j = elim (Bool-cases (d.staging_active && d.staging_slot == i)) [
  | inl hit ↦ rw hit (clear_committed-slots i d j)
  | inr miss ↦ rw miss (clear_committed-slots i d j)
]

-- What expiry at a time makes of a slot.
abbrev pub expired : ℕ → DynamicSlot → DynamicSlot
expired now e = if is_due now e then cleared e else e

expire_if_due-slots :
    (now i : ℕ) (d : Dynamic) (j : ℕ)
    → (expire_if_due now i d).slots j ≡ (if i == j then expired now (d.slots j) else d.slots j)
unfolding expire_if_due
expire_if_due-slots now i d j = elim (Bool-cases (is_due now (d.slots i))) [
  | inl due ↦ rw due (
      expire_slot-slots i d j
      ∙ same_slot (λ (e : DynamicSlot). cleared e) i j d
          (λ q. rw (ap (λ k. is_due now (d.slots k)) (sym q) ∙ due)))
  | inr fresh ↦ rw fresh (
      sym (if_same (i == j) (d.slots j))
      ∙ same_slot (λ (e : DynamicSlot). e) i j d
          (λ q. rw (ap (λ k. is_due now (d.slots k)) (sym q) ∙ fresh)))
]
  where
    if_same : (b : Bool) (e : DynamicSlot) → (if b then e else e) ≡ e
    if_same b e = ground arith

    same_slot :
        (g : DynamicSlot → DynamicSlot) (i j : ℕ) (d : Dynamic)
        → (i ≡ j → g (d.slots j) ≡ expired now (d.slots j))
        → (if i == j then g (d.slots j) else d.slots j)
          ≡ (if i == j then expired now (d.slots j) else d.slots j)
    same_slot g i j d q = elim (Bool-cases (i == j)) [
      | inl same ↦ rw same (q ((==_iff i j).0 same))
      | inr differ ↦ rw differ
    ]

module _ (c : Config) where
  -- Expiry clears exactly the slots that are due, and leaves each other slot as it was.
  pub expire_due-slots :
      (now : ℕ) (d : Dynamic) (j : ℕ)
      → (expire_due c now d).slots j
        ≡ (if visits c.dynamic_slot_count 0 j then expired now (d.slots j) else d.slots j)
  unfolding expire_due
  expire_due-slots now d j =
      for_slots_pointwise (expired now) (expire_if_due now) (expire_if_due-slots now)
        c.dynamic_slot_count 0 d j

  pub rearm-slots : (now : ℕ) (d : Dynamic) (j : ℕ) → (rearm c now d).slots j ≡ d.slots j
  unfolding rearm
  rearm-slots now d j = refl
