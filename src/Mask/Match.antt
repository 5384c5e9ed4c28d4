-- ===== src/Mask/Match.antt =====
-- ircd/match.c: `match`. Pointers into the mask and the name are what is left of them. `m_tmp` equals
-- `mask` until a star has been passed: then the saved position is `none`.
pub mod Wild
pub mod Steps
pub mod Correct
pub mod Escape
use irch.Base.{
  ==_iff, Bool, Bool-cases, List, Option, Option-cases, [], all_below, all_below_sound, ap, arith,
  bit_and, bit_or, bit_xor, codes, dec_lt, drop, drop-append, false, get_elem?, get_elem?-set_ne,
  get_elem?-set_self, get_or, if◌then◌else◌, inl, inr, leb, leb→le, length, length-append,
  length-drop, length-map, length-replicate, length-set, length-take, ltb, ltb→lt, lt→ltb, map,
  none, not, refl, replicate, set, some, suc, sym, tail, take, take-append, take-append-drop,
  take_all, tests, true, update, update_ne, update_self, zero, ℕ, ℕ_discrete, ◌%◌, ◌&&◌, ◌*◌, ◌++◌,
  ◌+◌, ◌-◌, ◌/◌, ◌<◌, ◌==◌, ◌^◌, ◌||◌, ◌↔◌, ◌∙◌, ◌∷◌, ◌≡◌, ◌≢◌, ◌≤◌, ◌⊎◌,
}
use irch.Chattr.{to_lower}
use irch.Mask.Items.{backslash, is_wild, starts_wild}

-- `matched` is the C result 0, `failed` is 1. `overrun` is a step behind the end of the name, and
-- `unfinished` belongs to the fuel.
pub data Answer : Type 0 where
  matched failed overrun unfinished : Answer

abbrev pub Back : Type 0
Back = Option (List ℕ × List ℕ)

abbrev pub Round : Type 0
Round = List ℕ → List ℕ → Back → Answer

-- The label that `switch (*m)` goes to. A `\` that escapes has been stepped over.
pub data Label : Type 0 where
  at_end : Label
  at_wild : Label
  normal : List ℕ → Label

pub label : List ℕ → Label
unfolding is_wild starts_wild
label [] = at_end
label (c ∷ m) =
    if c == backslash
    then (if starts_wild m then normal m else normal (c ∷ m))
    else if is_wild c
    then at_wild
    else normal (c ∷ m)

-- `backtrack:`
pub backtrack : Back → Round → Answer
backtrack none next = failed
backtrack (some (m, [])) next = overrun
backtrack (some (m, c ∷ [])) next = failed
backtrack (some (m, c ∷ d ∷ n)) next = next m (d ∷ n) (some (m, d ∷ n))

-- The loop over a run of wildcards: `goto backtrack`, or the value of `star_p` and what is left.
pub data Run : Type 0 where
  exhausted : Run
  run : Bool → List ℕ → List ℕ → Run

pub wild_run : Bool → List ℕ → List ℕ → Run
wild_run star_p [] n = run star_p [] n
wild_run star_p (c ∷ m) [] =
    let onward = wild_run true m [] in
    if c == b'*' then onward else if c == b'?' then exhausted else run star_p (c ∷ m) []
wild_run star_p (c ∷ m) (d ∷ n) =
    let past_star = wild_run true m (d ∷ n) in
    let past_one = wild_run star_p m n in
    if c == b'*' then past_star else if c == b'?' then past_one else run star_p (c ∷ m) (d ∷ n)

-- `for (n_tmp = n; *n && ToLower(*n) != ToLower(*m); n++) ;`
pub skip_to : ℕ → List ℕ → List ℕ
skip_to x [] = []
skip_to x (c ∷ n) = if to_lower c == to_lower x then c ∷ n else skip_to x n

-- `normal_character:`
pub normal_character : List ℕ → List ℕ → Back → Round → Answer
unfolding backtrack
normal_character [] [] back next = matched
normal_character (x ∷ m) [] back next = failed
normal_character [] (c ∷ n) back next = backtrack back next
normal_character (x ∷ m) (c ∷ n) back next =
    if to_lower x == to_lower c then next m n back else backtrack back next

-- What follows the run: a star saves the position and skips ahead, and then a character is compared.
pub after_run : Run → Back → Round → Answer
unfolding backtrack normal_character skip_to
after_run exhausted back next = backtrack back next
after_run (run false m n) back next = normal_character m n back next
after_run (run true [] n) back next = matched
after_run (run true (x ∷ m) n) back next =
    normal_character (x ∷ m) (skip_to x n) (some (x ∷ m, n)) next

pub match_end : List ℕ → Back → Round → Answer
unfolding backtrack
match_end [] back next = matched
match_end (c ∷ n) back next = backtrack back next

-- One round of the `for`.
pub round : Label → List ℕ → List ℕ → Back → Round → Answer
unfolding match_end after_run wild_run normal_character
round at_end m n back next = match_end n back next
round at_wild m n back next = after_run (wild_run false m n) back next
round (normal m') m n back next = normal_character m' n back next

pub match_loop : ℕ → Round
match_loop zero m n back = unfinished
match_loop (suc fuel) m n back = round (label m) m n back (match_loop fuel)

-- The fuel pays for one walk through the mask from each position of the name.
unfoldable pub match : List ℕ → List ℕ → Answer
unfolding match_loop round label
match mask name = match_loop ((length name + 1) * (length mask + 2)) mask name none
