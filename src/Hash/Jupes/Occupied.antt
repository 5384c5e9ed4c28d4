-- ===== src/Hash/Jupes/Occupied.antt =====
-- ircd/hash.c: how many slots of the table of nick jupes are taken.
use irch.Base.{
  Bool-cases, List, List-cases, [], arith, inl, inr, refl, suc, update, zero, ℕ, ◌+◌, ◌==◌, ◌<◌,
  ◌≤◌, ◌∷◌, ◌≡◌,
}

unfoldable pub weight : List ℕ → ℕ
weight [] = 0
weight (c ∷ n) = 1

-- The slots below `k` that hold a nick.
unfoldable pub occupied : ℕ → (ℕ → List ℕ) → ℕ
occupied zero slots = 0
occupied (suc k) slots = occupied k slots + weight (slots k)

-- If not all of them are taken, then one is free.
pub occupied-free :
    (k : ℕ) (slots : ℕ → List ℕ) → occupied k slots < k → (p : ℕ) × (p < k) × (slots p ≡ [])
unfolding occupied weight
occupied-free zero slots h = absurd (omega arith)
occupied-free (suc k) slots h = elim (List-cases (slots k)) [
  | inl e ↦ (k, omega arith, e)
  | inr (c, n, e) ↦
      let one : weight (slots k) ≡ 1 = rw e refl in
      let (p, within, free) = occupied-free k slots (omega arith) in (p, omega arith, free)
]

occupied-update_above :
    (k : ℕ) (slots : ℕ → List ℕ) (p : ℕ) (v : List ℕ)
    → k ≤ p
    → occupied k (update slots p v) ≡ occupied k slots
unfolding occupied
occupied-update_above zero slots p v h = refl
occupied-update_above (suc k) slots p v h = ground (arith, occupied-update_above k slots p v)

pub occupied-update :
    (k : ℕ) (slots : ℕ → List ℕ) (p c : ℕ) (n : List ℕ)
    → p < k
    → slots p ≡ []
    → occupied k (update slots p (c ∷ n)) ≡ occupied k slots + 1
unfolding occupied weight
occupied-update zero slots p c n h free = absurd (omega arith)
occupied-update (suc k) slots p c n h free = elim (Bool-cases (k == p)) [
  | inl e ↦
      let same : k ≡ p = ground arith in
      let none_before : weight (slots k) ≡ 0 = rw (same, free) refl in
      rw e (ground (arith, occupied-update_above k slots p (c ∷ n)))
  | inr e ↦ rw e (ground (arith, occupied-update k slots p c n))
]
