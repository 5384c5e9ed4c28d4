-- ===== src/Mask/Match/Wild.antt =====
-- ircd/match.c: what the labels of `match` and its run of wildcards say of the mask as items.
use irch.Base.{
  ==_iff, Bool, Bool-cases, List, [], arith, false, inl, inr, length, refl, true, ℕ, ◌<◌, ◌==◌, ◌↔◌,
  ◌∙◌, ◌∷◌, ◌≡◌, ◌≤◌,
}
use irch.Mask.Items.{
  backslash, is_wild, starts_wild, Item, star, any, chr, item_of, items, Matches, skip, any_one,
  any_inv, star_end, two_stars, star_any, is_clear,
}
use irch.Mask.Match.{Label, at_end, at_wild, normal, label, Run, exhausted, run, wild_run}

-- The items do not begin with an escaped wildcard.
pub head_clear : List Item → Bool
head_clear (chr true c ∷ p) = false
head_clear _ = true

pub items-star : (m : List ℕ) → items (b'*' ∷ m) ≡ star ∷ items m
unfolding items
items-star [] = refl
items-star (d ∷ m) = refl

pub items-any : (m : List ℕ) → items (b'?' ∷ m) ≡ any ∷ items m
unfolding items
items-any [] = refl
items-any (d ∷ m) = refl

-- A character that is no wildcard and does not escape stands for itself.
pub items-plain :
    (x : ℕ) (m : List ℕ)
    → is_wild x ≡ false
    → head_clear (items (x ∷ m)) ≡ true
    → items (x ∷ m) ≡ chr false x ∷ items m
unfolding items head_clear
items-plain x [] plain clear = ground arith
items-plain x (d ∷ m) plain clear = ground arith

abbrev pub LabelMeans : List ℕ → Label → Type 0
LabelMeans m at_end = m ≡ []
LabelMeans m at_wild = (c : ℕ) × (m' : List ℕ) × (m ≡ c ∷ m') × (is_wild c ≡ true)
LabelMeans m (normal []) = ⊥
LabelMeans m (normal (x ∷ m')) =
    (e : Bool) × (items m ≡ chr e x ∷ items m') × (length m' < length m)

pub item_of-plain : (c : ℕ) → is_wild c ≡ false → item_of c ≡ chr false c
unfolding item_of is_wild
item_of-plain c h = ground arith

pub item_of-backslash : (c : ℕ) → (c == backslash) ≡ true → item_of c ≡ chr false c
unfolding item_of
item_of-backslash c h = ground arith

pub items-escape :
    (c d : ℕ) (m : List ℕ)
    → (c == backslash) ≡ true
    → is_wild d ≡ true
    → items (c ∷ d ∷ m) ≡ chr true d ∷ items m
unfolding items
items-escape c d m e w = ground arith

pub items-backslash :
    (c d : ℕ) (m : List ℕ)
    → (c == backslash) ≡ true
    → is_wild d ≡ false
    → items (c ∷ d ∷ m) ≡ chr false c ∷ items (d ∷ m)
unfolding items
items-backslash c d m e w = ground arith

pub items-single :
    (c d : ℕ) (m : List ℕ)
    → (c == backslash) ≡ false
    → is_wild c ≡ false
    → items (c ∷ d ∷ m) ≡ chr false c ∷ items (d ∷ m)
unfolding items
items-single c d m e w = ground arith

pub items-last : (c : ℕ) → items (c ∷ []) ≡ item_of c ∷ []
unfolding items
items-last c = refl

-- Each label with what the mask is there.
pub label_means : (m : List ℕ) → LabelMeans m (label m)
unfolding label starts_wild items
label_means [] = refl
label_means (c ∷ []) = elim (Bool-cases (c == backslash)) [
  | inl e ↦ rw e (false, items-last c ∙ rw (item_of-backslash c e), omega arith)
  | inr e ↦ rw e (elim (Bool-cases (is_wild c)) [
    | inl w ↦ rw w (c, [], refl, w)
    | inr w ↦ rw w (false, items-last c ∙ rw (item_of-plain c w), omega arith)
  ])
]
label_means (c ∷ d ∷ m) = elim (Bool-cases (c == backslash)) [
  | inl e ↦ rw e (elim (Bool-cases (is_wild d)) [
    | inl w ↦ rw w (true, items-escape c d m e w, omega arith)
    | inr w ↦ rw w (false, items-backslash c d m e w, omega arith)
  ])
  | inr e ↦ rw e (elim (Bool-cases (is_wild c)) [
    | inl w ↦ rw w (c, d ∷ m, refl, w)
    | inr w ↦ rw w (false, items-single c d m e w, omega arith)
  ])
]

-- In front of the rest of a run, `star_p` stands for a star that has been passed.
abbrev pub with_star : Bool → List Item → List Item
with_star true p = star ∷ p
with_star false p = p

-- What a run that began at `m` and `n` says where it stops.
abbrev pub RunMeans : Bool → List ℕ → List ℕ → Run → Type 0
RunMeans b m n exhausted = ¬ Matches (star ∷ items m) n
RunMeans b m n (run b' m' n') =
    (Matches (with_star b (items m)) n ↔ Matches (with_star b' (items m')) n')
    × (Matches (star ∷ items m) n → Matches (star ∷ items m') n')
    × (starts_wild m' ≡ false)
    × (is_clear (items m) ≡ true
        → head_clear (items m) ≡ true
        → (is_clear (items m') ≡ true) × (head_clear (items m') ≡ true))
    × (length m' ≤ length m)
    × (length n' ≤ length n)

pub star_star :
    (b : Bool) (p : List Item) (n : List ℕ)
    → Matches (with_star b (star ∷ p)) n ↔ Matches (star ∷ p) n
star_star true p n = (two_stars, λ d. skip d)
star_star false p n = (λ d. d, λ d. d)

pub star_clear :
    (p : List Item) → is_clear (star ∷ p) ≡ true → (is_clear p ≡ true) × (head_clear p ≡ true)
unfolding is_clear head_clear
star_clear [] h = (refl, refl)
star_clear (star ∷ p) h = (h, refl)
star_clear (any ∷ p) h = (h, refl)
star_clear (chr true c ∷ p) h = cc
star_clear (chr false c ∷ p) h = (h, refl)

pub any_clear :
    (p : List Item) → is_clear (any ∷ p) ≡ true → (is_clear p ≡ true) × (head_clear p ≡ true)
unfolding is_clear head_clear
any_clear [] h = (refl, refl)
any_clear (star ∷ p) h = (h, refl)
any_clear (any ∷ p) h = (h, refl)
any_clear (chr true c ∷ p) h = cc
any_clear (chr false c ∷ p) h = (h, refl)

star_step : (b : Bool) (m n : List ℕ) (r : Run) → RunMeans true m n r → RunMeans b (b'*' ∷ m) n r
star_step b m n exhausted h = λ d. h (two_stars (rw items-star at d))
star_step b m n (run b' m' n') (both, star_in, plain, clear, lm, ln) = (
  rw items-star
      (λ d. both.0 ((star_star b (items m) n).0 d), λ d. (star_star b (items m) n).1 (both.1 d)),
  λ d. star_in (two_stars (rw items-star at d)),
  plain,
  λ k _. let (k1, k2) = star_clear (items m) (rw items-star at k) in clear k1 k2,
  omega arith,
  ln,
)

past_any :
    (b : Bool) (c : ℕ) (p : List Item) (n : List ℕ)
    → Matches (with_star b (any ∷ p)) (c ∷ n) ↔ Matches (with_star b p) n
past_any true c p n = (λ d. any_inv ((star_any (c ∷ n)).0 d), λ d. (star_any (c ∷ n)).1 (any_one d))
past_any false c p n = (any_inv, any_one)

any_step :
    (b : Bool) (c : ℕ) (m n : List ℕ) (r : Run) → RunMeans b m n r → RunMeans b (b'?' ∷ m) (c ∷ n) r
any_step b c m n exhausted h = λ d. h ((past_any true c (items m) n).0 (rw items-any at d))
any_step b c m n (run b' m' n') (both, star_in, plain, clear, lm, ln) = (
  rw items-any
      (λ d. both.0 ((past_any b c (items m) n).0 d), λ d. (past_any b c (items m) n).1 (both.1 d)),
  λ d. star_in ((past_any true c (items m) n).0 (rw items-any at d)),
  plain,
  λ k _. let (k1, k2) = any_clear (items m) (rw items-any at k) in clear k1 k2,
  omega arith,
  omega arith,
)

no_any : (m : List ℕ) → ¬ Matches (star ∷ items (b'?' ∷ m)) []
no_any m d = let e : Matches (any ∷ items m) [] = star_end (rw items-any at d) in elim e [ ]

stop : (b : Bool) (m n : List ℕ) → starts_wild m ≡ false → RunMeans b m n (run b m n)
stop b m n h = ((λ d. d, λ d. d), λ d. d, h, λ k l. (k, l), omega arith, omega arith)

pub not_wild : (c : ℕ) → (c == b'*') ≡ false → (c == b'?') ≡ false → is_wild c ≡ false
unfolding is_wild
not_wild c h k = ground arith

pub wild_run_means : (b : Bool) (m n : List ℕ) → RunMeans b m n (wild_run b m n)
unfolding wild_run starts_wild
wild_run_means b [] n = stop b [] n refl
wild_run_means b (c ∷ m) [] = elim (Bool-cases (c == b'*')) [
  | inl s ↦ rw ((==_iff c b'*').0 s) (star_step b m [] _ (wild_run_means true m []))
  | inr s ↦ elim (Bool-cases (c == b'?')) [
    | inl q ↦ rw ((==_iff c b'?').0 q) (no_any m)
    | inr q ↦ rw (s, q) (stop b (c ∷ m) [] (not_wild c s q))
  ]
]
wild_run_means b (c ∷ m) (d ∷ n) = elim (Bool-cases (c == b'*')) [
  | inl s ↦ rw ((==_iff c b'*').0 s) (star_step b m (d ∷ n) _ (wild_run_means true m (d ∷ n)))
  | inr s ↦ elim (Bool-cases (c == b'?')) [
    | inl q ↦ rw ((==_iff c b'?').0 q) (any_step b d m n _ (wild_run_means b m n))
    | inr q ↦ rw (s, q) (stop b (c ∷ m) (d ∷ n) (not_wild c s q))
  ]
]

pub head_wild : (c : ℕ) (m : List ℕ) → is_wild c ≡ true → head_clear (items (c ∷ m)) ≡ true
unfolding items head_clear
head_wild c [] h = ground arith
head_wild c (d ∷ m) h = ground arith

pub items-nil : items [] ≡ []
unfolding items
items-nil = refl
