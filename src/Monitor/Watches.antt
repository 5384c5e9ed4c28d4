-- ===== src/Monitor/Watches.antt =====
-- ircd/monitor.c: which nicks a client watches.
use irch.Base.{
  Bool, List, Option-cases, arith, contains, false, inl, inr, is_null, not, refl, true, ℕ, ◌&&◌,
  ◌≡◌,
}
use irch.Crule.{same_text}
use irch.Hash.{first}
use irch.Hash.Seek.{first-none, first-some}
use irch.Monitor.{State}

-- Whether the test succeeds at a member of the list.
unfoldable pub has : (ℕ → Bool) → List ℕ → Bool
has test ps = not (is_null (first test ps))

-- Client `c` watches the nick `n`, upper and lower case being the same.
unfoldable pub watches : State → ℕ → List ℕ → Bool
watches s c n = has (λ p. same_text n (s.nick p)) (s.watched c)

pub has-true :
    (test : ℕ → Bool) (ps : List ℕ) (p : ℕ)
    → contains p ps ≡ true
    → test p ≡ true
    → has test ps ≡ true
unfolding has
has-true test ps p at t = elim (Option-cases (first test ps)) [
  | inl e ↦ let f : test p ≡ false = first-none test ps p e at in absurd (ground arith)
  | inr (q, e) ↦ rw e refl
]

pub has-witness :
    (test : ℕ → Bool) (ps : List ℕ)
    → has test ps ≡ true
    → (p : ℕ) × (contains p ps ≡ true) × (test p ≡ true)
unfolding has
has-witness test ps h = elim (Option-cases (first test ps)) [
  | inl e ↦ absurd (let f : has test ps ≡ false = rw (has, e) refl in unfold has in ground arith)
  | inr (q, e) ↦
      let f : (contains q ps && test q) ≡ true = first-some test ps q e in
      (q, ground arith, ground arith)
]
