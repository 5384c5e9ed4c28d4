-- ===== src/Mask/Match/Steps.antt =====
-- ircd/match.c: what a mask still has to match after a step of `match`.
use irch.Base.{
  Bool, Bool-cases, List, [], arith, false, inl, inr, length, true, ℕ, ◌==◌, ◌∷◌, ◌≡◌, ◌≤◌,
}
use irch.Chattr.{to_lower}
use irch.Mask.Items.{
  Item, star, chr, Matches, done, skip, take_one, same, same_inv, star_inv, is_clear,
}
use irch.Mask.Match.{skip_to}

-- A character that is compared can only stand behind what a star in front of it takes.
pub past_chr :
    {e : Bool} {x : ℕ} {p : List Item} (c : ℕ) (n : List ℕ)
    → Matches (star ∷ chr e x ∷ p) (c ∷ n)
    → Matches (star ∷ p) n
past_chr c n (skip (same h d)) = skip d
past_chr c [] (take_one (skip d)) = elim d [ ]
past_chr c (d ∷ n) (take_one t) = take_one (past_chr d n t)

pub chr_clear :
    (e : Bool) (x : ℕ) (p : List Item) → is_clear (chr e x ∷ p) ≡ true → is_clear p ≡ true
unfolding is_clear
chr_clear true x p h = h
chr_clear false x p h = h

pub star_all : (n : List ℕ) → Matches (star ∷ []) n
star_all [] = skip done
star_all (c ∷ n) = take_one (star_all n)

module _ (e : Bool) (x : ℕ) (p : List Item) where
  pub from_skip : (n : List ℕ) → Matches p (skip_to x n) → Matches (star ∷ p) n
  unfolding skip_to
  from_skip [] d = skip d
  from_skip (c ∷ n) d = elim (Bool-cases (to_lower c == to_lower x)) [
    | inl h ↦ skip (rw h at d)
    | inr h ↦ take_one (from_skip n (rw h at d))
  ]

  differ_at :
      (c : ℕ) (n : List ℕ) → (to_lower c == to_lower x) ≡ false → ¬ Matches (chr e x ∷ p) (c ∷ n)
  differ_at c n h d = let eq = (same_inv d).0 in absurd (ground arith)

  pub star_to_skip :
      (n : List ℕ) → Matches (star ∷ chr e x ∷ p) n → Matches (star ∷ chr e x ∷ p) (skip_to x n)
  unfolding skip_to
  star_to_skip [] d = d
  star_to_skip (c ∷ n) d = elim (Bool-cases (to_lower c == to_lower x)) [
    | inl h ↦ rw h d
    | inr h ↦
        rw h (star_to_skip n (elim (star_inv d) [ inl t ↦ absurd (differ_at c n h t) | inr t ↦ t ]))
  ]

  pub chr_to_skip : (n : List ℕ) → Matches (chr e x ∷ p) n → Matches (chr e x ∷ p) (skip_to x n)
  unfolding skip_to
  chr_to_skip [] d = d
  chr_to_skip (c ∷ n) d = elim (Bool-cases (to_lower c == to_lower x)) [
    | inl h ↦ rw h d
    | inr h ↦ absurd (differ_at c n h d)
  ]

pub length-skip_to : (x : ℕ) (n : List ℕ) → length (skip_to x n) ≤ length n
unfolding skip_to
length-skip_to x [] = omega arith
length-skip_to x (c ∷ n) = ground (arith, length-skip_to x n)
