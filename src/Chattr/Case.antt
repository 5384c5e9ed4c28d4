-- ===== src/Chattr/Case.antt =====
-- ircd/table_gen.c: what the case tables do to every character.
use irch.Base.{
  Bool, all_below, all_below_sound, ap, arith, false, if◌then◌else◌, leb, refl, sym, true, ℕ, ◌&&◌,
  ◌+◌, ◌-◌, ◌<◌, ◌==◌, ◌↔◌, ◌∙◌, ◌≡◌,
}
use irch.Chattr.{
  is_digit, to_lower, to_upper, is_alnum, is_nick_char, is_channel_char, is_user_char,
}

to_lower_form :
    (c : ℕ)
    → to_lower c ≡ (
        if leb 91 c && leb c 94
        then c + 32
        else if leb 0xd8 c && leb c 0xde
        then c + 32
        else if leb 0xc0 c && leb c 0xd6
        then c + 32
        else if leb 65 c && leb c 90
        then c + 32
        else c)
unfolding to_lower
to_lower_form c = refl

to_upper_form :
    (c : ℕ)
    → to_upper c ≡ (
        if leb 123 c && leb c 126
        then c - 32
        else if leb 0xf8 c && leb c 0xfe
        then c - 32
        else if leb 0xe0 c && leb c 0xf6
        then c - 32
        else if leb 97 c && leb c 122
        then c - 32
        else c)
unfolding to_upper
to_upper_form c = refl

pub to_lower_idem : (c : ℕ) → to_lower (to_lower c) ≡ to_lower c
to_lower_idem c = ground (arith, to_lower_form c, to_lower_form (to_lower c))

pub to_lower-zero : (c : ℕ) → to_lower c ≡ 0 → c ≡ 0
to_lower-zero c h = ground (arith, to_lower_form c)

folds : ℕ → Bool
folds c =
    (to_lower (to_upper c) == to_lower c)
    && (to_upper (to_lower c) == to_upper c)
    && (to_upper (to_upper c) == to_upper c)

folds_table : all_below 256 folds ≡ true
unfolding all_below folds to_lower to_upper
folds_table = refl

folds_lem :
    (c : ℕ)
    → c < 256
    → (to_lower (to_upper c) ≡ to_lower c)
      × (to_upper (to_lower c) ≡ to_upper c)
      × (to_upper (to_upper c) ≡ to_upper c)
unfolding folds
folds_lem c h = ground (arith, all_below_sound 256 folds c folds_table h)

-- On bytes, folding to either case is idempotent, and both foldings identify the same characters.
pub to_lower_iff_to_upper :
    (a b : ℕ)
    → a < 256
    → b < 256
    → (to_lower (to_lower a) ≡ to_lower a)
      × (to_upper (to_upper a) ≡ to_upper a)
      × ((to_lower a ≡ to_lower b) ↔ (to_upper a ≡ to_upper b))
to_lower_iff_to_upper a b ha hb =
    let (lu, ul, uu) = folds_lem a ha in
    let (lu', ul', _) = folds_lem b hb in
    (to_lower_idem a, uu, (λ e. sym ul ∙ ap to_upper e ∙ ul', λ e. sym lu ∙ ap to_lower e ∙ lu'))

implies : Bool → Bool → Bool
implies true b = b
implies false b = true

implies_elim : (a b : Bool) → implies a b ≡ true → a ≡ true → b ≡ true
unfolding implies
implies_elim true b h e = h
implies_elim false b h e = cc

and_elim : (a b : Bool) → (a && b) ≡ true → (a ≡ true) × (b ≡ true)
and_elim true b h = (refl, h)
and_elim false b h = cc

keeps_class : ℕ → Bool
keeps_class c =
    implies (is_nick_char c) (is_nick_char (to_lower c))
    && implies (is_channel_char c) (is_channel_char (to_lower c))
    && implies (is_user_char c) (is_user_char (to_lower c))
    && implies (is_alnum c) (is_alnum (to_lower c))

keeps_class_table : all_below 256 keeps_class ≡ true
unfolding all_below keeps_class to_lower implies is_nick_char is_channel_char is_user_char is_alnum
keeps_class_table = refl

keeps_class_lem : (c : ℕ) → c < 256 → keeps_class c ≡ true
keeps_class_lem c h = all_below_sound 256 keeps_class c keeps_class_table h

-- Lower case keeps a character in the sets of nick, channel and user name characters, and in the
-- alphanumeric set.
pub to_lower-class :
    (c : ℕ)
    → c < 256
    → (is_nick_char c ≡ true → is_nick_char (to_lower c) ≡ true)
      × (is_channel_char c ≡ true → is_channel_char (to_lower c) ≡ true)
      × (is_user_char c ≡ true → is_user_char (to_lower c) ≡ true)
      × (is_alnum c ≡ true → is_alnum (to_lower c) ≡ true)
unfolding keeps_class
to_lower-class c h =
    let nick = implies (is_nick_char c) (is_nick_char (to_lower c)) in
    let channel = implies (is_channel_char c) (is_channel_char (to_lower c)) in
    let user = implies (is_user_char c) (is_user_char (to_lower c)) in
    let alnum = implies (is_alnum c) (is_alnum (to_lower c)) in
    let k = and_elim (nick && channel && user) alnum (keeps_class_lem c h) in
    let l = and_elim (nick && channel) user k.0 in
    let m = and_elim nick channel l.0 in
    (implies_elim _ _ m.0, implies_elim _ _ m.1, implies_elim _ _ l.1, implies_elim _ _ k.1)

digits_table : all_below 10 (λ a. is_digit (b'0' + a)) ≡ true
unfolding all_below is_digit
digits_table = refl

pub is_digit_lem : (a : ℕ) → a < 10 → is_digit (b'0' + a) ≡ true
is_digit_lem a h = all_below_sound 10 (λ a. is_digit (b'0' + a)) a digits_table h
