-- ===== src/Mask/Match/Escape.antt =====
-- ircd/match.c: `match` on a star directly in front of an escaped wildcard. Behind the run of
-- wildcards the code compares the backslash itself.
use irch.Base.{List, [], arith, false, none, refl, suc, true, zero, ℕ, ◌++◌, ◌<◌, ◌==◌, ◌∷◌, ◌≡◌}
use irch.Chattr.{to_lower}
use irch.Mask.Items.{
  backslash, is_wild, Item, star, chr, items, Matches, done, skip, take_one, same,
}
use irch.Mask.Match.{
  failed, label, wild_run, skip_to, normal_character, after_run, round, match_loop, match,
}

-- No character of the name is a backslash, in either case.
abbrev pub Unslashed : List ℕ → Type 0
Unslashed [] = Unit
Unslashed (c ∷ n) = ((to_lower c == to_lower backslash) ≡ false) × Unslashed n

skip_to_end : (n : List ℕ) → Unslashed n → skip_to backslash n ≡ []
unfolding skip_to
skip_to_end [] h = refl
skip_to_end (c ∷ n) (h, hs) = rw h (skip_to_end n hs)

match_loop_star :
    (fuel w : ℕ) (n : List ℕ)
    → Unslashed n
    → match_loop (suc fuel) (b'*' ∷ backslash ∷ w ∷ []) n none ≡ failed
unfolding match_loop round after_run normal_character label wild_run
match_loop_star fuel w [] h = refl
match_loop_star fuel w (c ∷ n) h = rw (skip_to_end (c ∷ n) h)

match_loop_some :
    (fuel w : ℕ) (n : List ℕ)
    → 0 < fuel
    → Unslashed n
    → match_loop fuel (b'*' ∷ backslash ∷ w ∷ []) n none ≡ failed
match_loop_some zero w n pos h = elim pos [ ]
match_loop_some (suc fuel) w n pos h = match_loop_star fuel w n h

star_before : (p : List Item) (n s : List ℕ) → Matches p s → Matches (star ∷ p) (n ++ s)
star_before p [] s d = skip d
star_before p (c ∷ n) s d = take_one (star_before p n s d)

Unslashed-append : (n : List ℕ) (w : ℕ) → Unslashed n → is_wild w ≡ true → Unslashed (n ++ w ∷ [])
unfolding is_wild to_lower
Unslashed-append [] w h k = (ground arith, tt)
Unslashed-append (c ∷ n) w (h, hs) k = (h, Unslashed-append n w hs k)

star_escape_items :
    (w : ℕ) → is_wild w ≡ true → items (b'*' ∷ backslash ∷ w ∷ []) ≡ star ∷ chr true w ∷ []
unfolding items
star_escape_items w k = ground arith

-- A star directly in front of an escaped wildcard `w` is not obeyed: every text that ends in `w` and
-- has no backslash (nor `|`, its lower case) matches the mask, and `match` says that it does not.
pub match-star_escape :
    (w : ℕ) (n : List ℕ)
    → is_wild w ≡ true
    → Unslashed n
    → (match (b'*' ∷ backslash ∷ w ∷ []) (n ++ w ∷ []) ≡ failed)
      × Matches (items (b'*' ∷ backslash ∷ w ∷ [])) (n ++ w ∷ [])
unfolding match
match-star_escape w n k h = (
  match_loop_some _ w (n ++ w ∷ []) (omega arith) (Unslashed-append n w h k),
  rw (star_escape_items w k) (star_before (chr true w ∷ []) n (w ∷ []) (same refl done)),
)
