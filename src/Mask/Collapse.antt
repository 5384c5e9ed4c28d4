-- ===== src/Mask/Collapse.antt =====
-- ircd/match.c: `collapse`. It rewrites the mask in place; here it returns the new text.
pub mod Meaning
use irch.Base.{
  ==_iff, Bool, Bool-cases, List, Option, Option-cases, [], all_below, all_below_sound, ap, arith,
  bit_and, bit_or, bit_xor, codes, dec_lt, drop, drop-append, false, get_elem?, get_elem?-set_ne,
  get_elem?-set_self, get_or, if◌then◌else◌, inl, inr, leb, leb→le, length, length-append,
  length-drop, length-map, length-replicate, length-set, length-take, ltb, ltb→lt, lt→ltb, map,
  none, not, refl, replicate, set, some, suc, sym, tail, take, take-append, take-append-drop,
  take_all, tests, true, update, update_ne, update_self, zero, ℕ, ℕ_discrete, ◌%◌, ◌&&◌, ◌*◌, ◌++◌,
  ◌+◌, ◌-◌, ◌/◌, ◌<◌, ◌==◌, ◌^◌, ◌||◌, ◌↔◌, ◌∙◌, ◌∷◌, ◌≡◌, ◌≢◌, ◌≤◌, ◌⊎◌,
}
use irch.Mask.Items.{backslash, is_wild, starts_wild}

-- The inner loop. `star` says that stars have been read and not yet written.
unfoldable pub squeeze : Bool → List ℕ → List ℕ
unfolding is_wild
squeeze true [] = b'*' ∷ []
squeeze false [] = []
squeeze star (c ∷ []) =
    let stars = squeeze true [] in
    let marks = c ∷ squeeze star [] in
    let plain = c ∷ squeeze false [] in
    if c == b'*' then stars else if c == b'?' then marks else if star then b'*' ∷ plain else plain
squeeze star (c ∷ d ∷ m) =
    let stars = squeeze true (d ∷ m) in
    let escaped = c ∷ d ∷ squeeze false m in
    let single = c ∷ squeeze false (d ∷ m) in
    let marks = c ∷ squeeze star (d ∷ m) in
    let plain = if c == backslash && is_wild d then escaped else single in
    if c == b'*' then stars else if c == b'?' then marks else if star then b'*' ∷ plain else plain

unfoldable pub collapse : List ℕ → List ℕ
unfolding squeeze
collapse [] = []
collapse (c ∷ []) = c ∷ []
collapse (c ∷ d ∷ m) =
    let squeezed = squeeze false (c ∷ d ∷ m) in
    let escaped = c ∷ d ∷ collapse m in
    let onward = c ∷ collapse (d ∷ m) in
    if c == b'*' && is_wild d
    then squeezed
    else if c == backslash && is_wild d
    then escaped
    else onward
