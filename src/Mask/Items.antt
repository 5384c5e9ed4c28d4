-- ===== src/Mask/Items.antt =====
-- What a mask of ircd/match.c means, with no search order in it: the mask as items, and the texts
-- that the items match.
use irch.Base.{
  Bool, List, [], false, if◌then◌else◌, inl, inr, true, ℕ, ◌&&◌, ◌==◌, ◌||◌, ◌↔◌, ◌∷◌, ◌≡◌, ◌⊎◌,
}
use irch.Chattr.{to_lower}

abbrev pub backslash : ℕ
backslash = 92

unfoldable pub is_wild : ℕ → Bool
is_wild c = c == b'*' || c == b'?'

-- `*p == '*' || *p == '?'`
unfoldable pub starts_wild : List ℕ → Bool
unfolding is_wild
starts_wild [] = false
starts_wild (c ∷ m) = is_wild c

-- `chr true c` is `\c` for a wildcard `c`.
pub data Item : Type 0 where
  star : Item
  any : Item
  chr : Bool → ℕ → Item

unfoldable pub item_of : ℕ → Item
item_of c = if c == b'*' then star else if c == b'?' then any else chr false c

unfoldable pub items : List ℕ → List Item
unfolding item_of is_wild
items [] = []
items (c ∷ []) = item_of c ∷ []
items (c ∷ d ∷ m) =
    let escaped = chr true d ∷ items m in
    let single = item_of c ∷ items (d ∷ m) in
    if c == backslash && is_wild d then escaped else single

-- Names are compared without regard to case.
pub data Matches : List Item → List ℕ → Type 0 where
  done : Matches [] []
  skip : {p : List Item} {n : List ℕ} → Matches p n → Matches (star ∷ p) n
  take_one :
      {p : List Item} {n : List ℕ} {c : ℕ} → Matches (star ∷ p) n → Matches (star ∷ p) (c ∷ n)
  any_one : {p : List Item} {n : List ℕ} {c : ℕ} → Matches p n → Matches (any ∷ p) (c ∷ n)
  same :
      {p : List Item} {n : List ℕ} {e : Bool} {x c : ℕ}
      → to_lower x ≡ to_lower c
      → Matches p n
      → Matches (chr e x ∷ p) (c ∷ n)

module _ {p : List Item} {n : List ℕ} {c : ℕ} where
  pub same_inv :
      {e : Bool} {x : ℕ} → Matches (chr e x ∷ p) (c ∷ n) → (to_lower x ≡ to_lower c) × Matches p n
  same_inv (same h d) = (h, d)

  pub any_inv : Matches (any ∷ p) (c ∷ n) → Matches p n
  any_inv (any_one d) = d

  pub star_inv : Matches (star ∷ p) (c ∷ n) → Matches p (c ∷ n) ⊎ Matches (star ∷ p) n
  star_inv (skip d) = inl d
  star_inv (take_one d) = inr d

pub star_end : {p : List Item} → Matches (star ∷ p) [] → Matches p []
star_end (skip d) = d

pub two_stars : {p : List Item} {n : List ℕ} → Matches (star ∷ star ∷ p) n → Matches (star ∷ p) n
two_stars (skip d) = d
two_stars (take_one d) = take_one (two_stars d)

-- A star in front of `?` takes its characters as well behind it.
pub star_any :
    {p : List Item} (n : List ℕ) → Matches (star ∷ any ∷ p) n ↔ Matches (any ∷ star ∷ p) n
star_any n = (forth n, back n)
  where
    forth : {p : List Item} (n : List ℕ) → Matches (star ∷ any ∷ p) n → Matches (any ∷ star ∷ p) n
    forth n (skip (any_one d)) = any_one (skip d)
    forth (c ∷ d ∷ n) (take_one t) = any_one (take_one (any_inv (forth (d ∷ n) t)))
    forth (c ∷ []) (take_one (skip t)) = elim t [ ]

    back : {p : List Item} (n : List ℕ) → Matches (any ∷ star ∷ p) n → Matches (star ∷ any ∷ p) n
    back [] t = elim t [ ]
    back (c ∷ n) (any_one (skip d)) = skip (any_one d)
    back (c ∷ d ∷ n) (any_one (take_one t)) = take_one (back (d ∷ n) (any_one t))

-- A star in front of a character: no text is shorter.
pub chr_end : {e : Bool} {x : ℕ} {p : List Item} → ¬ Matches (chr e x ∷ p) []
chr_end d = elim d [ ]

-- No wildcard stands directly in front of an escaped one.
unfoldable pub is_clear : List Item → Bool
is_clear [] = true
is_clear (star ∷ chr true c ∷ p) = false
is_clear (any ∷ chr true c ∷ p) = false
is_clear (i ∷ p) = is_clear p
