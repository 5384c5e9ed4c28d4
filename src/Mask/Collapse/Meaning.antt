-- ===== src/Mask/Collapse/Meaning.antt =====
-- ircd/match.c: `collapse` keeps what a mask matches.
use irch.Base.{
  ==_iff, Bool, Bool-cases, List, [], arith, false, if◌then◌else◌, inl, inr, refl, true, ℕ, ◌&&◌,
  ◌==◌, ◌↔◌, ◌∙◌, ◌∷◌, ◌≡◌,
}
use irch.Mask.Items.{
  backslash, is_wild, starts_wild, Item, star, any, chr, items, Matches, skip, take_one, any_one,
  same, star_any,
}
use irch.Mask.Match.Wild.{
  not_wild, with_star, items-star, items-any, star_star, items-escape, items-backslash,
  items-single,
}
use irch.Mask.Collapse.{squeeze, collapse}

-- Two masks with the same meaning.
abbrev pub Alike : List Item → List Item → Type 0
Alike p q = (n : List ℕ) → Matches p n ↔ Matches q n

under :
    (i : Item) (p q : List Item)
    → ((n : List ℕ) → Matches p n → Matches q n)
    → (n : List ℕ) → Matches (i ∷ p) n
    → Matches (i ∷ q) n
under star p q h n (skip d) = skip (h n d)
under star p q h (c ∷ n) (take_one d) = take_one (under star p q h n d)
under any p q h [] d = elim d [ ]
under any p q h (c ∷ n) (any_one d) = any_one (h n d)
under (chr e x) p q h [] d = elim d [ ]
under (chr e x) p q h (c ∷ n) (same eq d) = same eq (h n d)

alike_under : (i : Item) (p q : List Item) → Alike p q → Alike (i ∷ p) (i ∷ q)
alike_under i p q h n = (under i p q (λ n. (h n).0) n, under i q p (λ n. (h n).1) n)

alike_trans : (p q r : List Item) → Alike p q → Alike q r → Alike p r
alike_trans p q r h k n = (λ d. (k n).0 ((h n).0 d), λ d. (h n).1 ((k n).1 d))

alike_refl : (p : List Item) → Alike p p
alike_refl p n = (λ d. d, λ d. d)

-- `b` tells whether stars are pending in front of the items.
stars_star : (b : Bool) (p : List Item) → Alike (star ∷ p) (with_star b (star ∷ p))
stars_star b p n = ((star_star b p n).1, (star_star b p n).0)

stars_any : (b : Bool) (p : List Item) → Alike (any ∷ with_star b p) (with_star b (any ∷ p))
stars_any true p n = ((star_any n).1, (star_any n).0)
stars_any false p n = (λ d. d, λ d. d)

items-plain_char :
    (c : ℕ) (m : List ℕ)
    → is_wild c ≡ false
    → ((c == backslash) ≡ true → starts_wild m ≡ false)
    → items (c ∷ m) ≡ chr false c ∷ items m
unfolding items starts_wild
items-plain_char c [] w h = ground arith
items-plain_char c (d ∷ m) w h = elim (Bool-cases (c == backslash)) [
  | inl e ↦ items-backslash c d m e (h e)
  | inr e ↦ items-single c d m e w
]

squeeze-starts : (m : List ℕ) → starts_wild m ≡ false → starts_wild (squeeze false m) ≡ false
unfolding squeeze starts_wild
squeeze-starts [] h = refl
squeeze-starts (c ∷ []) h = ground arith
squeeze-starts (c ∷ d ∷ m) h = ground arith

star_case :
    (b : Bool) (m : List ℕ) (p : List Item)
    → Alike p (star ∷ items m)
    → Alike p (with_star b (items (b'*' ∷ m)))
star_case b m p h = rw items-star (alike_trans _ _ _ h (stars_star b (items m)))

any_case :
    (b : Bool) (m out : List ℕ)
    → Alike (items out) (with_star b (items m))
    → Alike (items (b'?' ∷ out)) (with_star b (items (b'?' ∷ m)))
any_case b m out h =
    rw (items-any out, items-any m)
      (alike_trans _ _ _ (alike_under any _ _ h) (stars_any b (items m)))

pending :
    (b : Bool) (out : List ℕ) (p : List Item)
    → Alike (items out) p
    → Alike (items (if b then b'*' ∷ out else out)) (with_star b p)
pending true out p h = rw items-star (alike_under star _ _ h)
pending false out p h = h

plain_case :
    (b : Bool) (c : ℕ) (m : List ℕ)
    → is_wild c ≡ false
    → ((c == backslash) ≡ true → starts_wild m ≡ false)
    → Alike (items (squeeze false m)) (items m)
    → Alike
        (items (if b then b'*' ∷ c ∷ squeeze false m else c ∷ squeeze false m))
        (with_star b (items (c ∷ m)))
plain_case b c m w h ih = pending b (c ∷ squeeze false m) (items (c ∷ m)) (
    rw
      (
        items-plain_char c (squeeze false m) w (λ e. squeeze-starts m (h e)),
        items-plain_char c m w h,
      )
      (alike_under _ _ _ ih))

escape_case :
    (b : Bool) (c d : ℕ) (m out : List ℕ)
    → (c == backslash) ≡ true
    → is_wild d ≡ true
    → Alike (items out) (items m)
    → Alike
        (items (if b then b'*' ∷ c ∷ d ∷ out else c ∷ d ∷ out))
        (with_star b (items (c ∷ d ∷ m)))
escape_case b c d m out e w ih =
    pending b (c ∷ d ∷ out) (items (c ∷ d ∷ m))
      (rw (items-escape c d out e w, items-escape c d m e w) (alike_under _ _ _ ih))

squeeze-Alike : (b : Bool) (m : List ℕ) → Alike (items (squeeze b m)) (with_star b (items m))
unfolding squeeze starts_wild
squeeze-Alike true [] = rw items-star (alike_refl _)
squeeze-Alike false [] = alike_refl _
squeeze-Alike b (c ∷ []) = elim (Bool-cases (c == b'*')) [
  | inl s ↦ rw ((==_iff c b'*').0 s) (star_case b [] _ (squeeze-Alike true []))
  | inr s ↦ elim (Bool-cases (c == b'?')) [
    | inl q ↦ rw ((==_iff c b'?').0 q) (any_case b [] _ (squeeze-Alike b []))
    | inr q ↦ rw (s, q) (plain_case b c [] (not_wild c s q) (λ _. refl) (squeeze-Alike false []))
  ]
]
squeeze-Alike b (c ∷ d ∷ m) = elim (Bool-cases (c == b'*')) [
  | inl s ↦ rw ((==_iff c b'*').0 s) (star_case b (d ∷ m) _ (squeeze-Alike true (d ∷ m)))
  | inr s ↦ elim (Bool-cases (c == b'?')) [
    | inl q ↦ rw ((==_iff c b'?').0 q) (any_case b (d ∷ m) _ (squeeze-Alike b (d ∷ m)))
    | inr q ↦ elim (Bool-cases (c == backslash)) [
      | inr k ↦
          rw (s, q, k)
            (plain_case b c (d ∷ m) (not_wild c s q) (λ e. cc) (squeeze-Alike false (d ∷ m)))
      | inl k ↦ elim (Bool-cases (is_wild d)) [
        | inl w ↦ rw (s, q, k, w) (escape_case b c d m _ k w (squeeze-Alike false m))
        | inr w ↦
            rw (s, q, k, w)
              (plain_case b c (d ∷ m) (not_wild c s q) (λ _. w) (squeeze-Alike false (d ∷ m)))
      ]
    ]
  ]
]

-- A character that the outer loop copies, in front of a text that begins alike.
onward :
    (c d : ℕ) (m out : List ℕ)
    → (c == backslash && is_wild d) ≡ false
    → Alike (items out) (items (d ∷ m))
    → starts_wild out ≡ is_wild d
    → Alike (items (c ∷ out)) (items (c ∷ d ∷ m))
unfolding starts_wild
onward c d m out e ih same_start = elim (Bool-cases (c == b'*')) [
  | inl s ↦
      rw ((==_iff c b'*').0 s) (rw (items-star out, items-star (d ∷ m)) (alike_under _ _ _ ih))
  | inr s ↦ elim (Bool-cases (c == b'?')) [
    | inl q ↦
        rw ((==_iff c b'?').0 q) (rw (items-any out, items-any (d ∷ m)) (alike_under _ _ _ ih))
    | inr q ↦
        let w = not_wild c s q in
        let h : (c == backslash) ≡ true → is_wild d ≡ false = λ k. guard _ _ e k in
        rw (items-plain_char c out w (λ k. same_start ∙ h k), items-plain_char c (d ∷ m) w h)
          (alike_under _ _ _ ih)
  ]
]
  where
    guard : (a b : Bool) → (a && b) ≡ false → a ≡ true → b ≡ false
    guard true b e k = e
    guard false b e k = cc

squeeze-true-starts_wild : (m : List ℕ) → starts_wild (squeeze true m) ≡ true
unfolding squeeze starts_wild
squeeze-true-starts_wild [] = refl
squeeze-true-starts_wild (c ∷ []) = elim (Bool-cases (c == b'*')) [
  | inl s ↦ rw s
  | inr s ↦ elim (Bool-cases (c == b'?')) [ inl q ↦ rw ((==_iff c b'?').0 q) | inr q ↦ rw (s, q) ]
]
squeeze-true-starts_wild (c ∷ d ∷ m) = elim (Bool-cases (c == b'*')) [
  | inl s ↦ rw s (squeeze-true-starts_wild (d ∷ m))
  | inr s ↦ elim (Bool-cases (c == b'?')) [ inl q ↦ rw ((==_iff c b'?').0 q) | inr q ↦ rw (s, q) ]
]

and_elim : (a b : Bool) → (a && b) ≡ true → (a ≡ true) × (b ≡ true)
and_elim true b h = (refl, h)
and_elim false b h = cc

collapse-starts_wild : (d : ℕ) (m : List ℕ) → starts_wild (collapse (d ∷ m)) ≡ is_wild d
unfolding collapse starts_wild
collapse-starts_wild d [] = refl
collapse-starts_wild d (e ∷ m) = elim (Bool-cases (d == b'*' && is_wild e)) [
  | inl s ↦
      let (star_here, _) = and_elim _ _ s in
      rw s (rw ((==_iff d b'*').0 star_here) (squeeze-true-starts_wild (e ∷ m)))
  | inr s ↦ rw s (elim (Bool-cases (d == backslash && is_wild e)) [ inl k ↦ rw k | inr k ↦ rw k ])
]

-- `collapse` keeps what the mask matches.
pub collapse-Alike : (mask : List ℕ) → Alike (items (collapse mask)) (items mask)
unfolding collapse
collapse-Alike [] = alike_refl _
collapse-Alike (c ∷ []) = alike_refl _
collapse-Alike (c ∷ d ∷ m) = elim (Bool-cases (c == b'*' && is_wild d)) [
  | inl s ↦ rw s (squeeze-Alike false (c ∷ d ∷ m))
  | inr s ↦ elim (Bool-cases (c == backslash && is_wild d)) [
    | inl e ↦
        let (k, w) = and_elim _ _ e in
        rw (s, e)
          (rw (items-escape c d (collapse m) k w, items-escape c d m k w)
            (alike_under _ _ _ (collapse-Alike m)))
    | inr e ↦
        rw (s, e)
          (onward c d m (collapse (d ∷ m)) e (collapse-Alike (d ∷ m)) (collapse-starts_wild d m))
  ]
]
