-- ===== src/Crule/Same.antt =====
-- ircd/ircd_string.c: texts that `ircd_strcmp` takes for one.
use irch.Base.{Bool-iff, List, [], arith, refl, true, ℕ, ◌∷◌, ◌≡◌}
use irch.Crule.{same_text}

pub same_text_refl : (a : List ℕ) → same_text a a ≡ true
unfolding same_text
same_text_refl [] = refl
same_text_refl (c ∷ a) = ground (arith, same_text_refl a)

pub same_text-sym : (a b : List ℕ) → same_text a b ≡ true → same_text b a ≡ true
unfolding same_text
same_text-sym [] [] h = refl
same_text-sym [] (d ∷ b) h = cc
same_text-sym (c ∷ a) [] h = cc
same_text-sym (c ∷ a) (d ∷ b) h = ground (arith, same_text-sym a b)

pub same_text_trans :
    (a b c : List ℕ) → same_text a b ≡ true → same_text b c ≡ true → same_text a c ≡ true
unfolding same_text
same_text_trans [] [] c h k = k
same_text_trans [] (y ∷ b) c h k = cc
same_text_trans (x ∷ a) [] c h k = cc
same_text_trans (x ∷ a) (y ∷ b) [] h k = cc
same_text_trans (x ∷ a) (y ∷ b) (z ∷ c) h k = ground (arith, same_text_trans a b c)

-- One spelling of a nick is as good as another.
pub same_text-eq : (a b c : List ℕ) → same_text b c ≡ true → same_text a b ≡ same_text a c
same_text-eq a b c h =
    Bool-iff (same_text a b) (same_text a c) (λ k. same_text_trans a b c k h)
      (λ k. same_text_trans a c b k (same_text-sym b c h))
