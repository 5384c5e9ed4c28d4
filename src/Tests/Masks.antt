-- ===== src/Tests/Masks.antt =====
-- ircd/match.c on small masks.
use irch.Base.{List, [], codes, refl, true, ℕ, ◌∷◌, ◌≡◌}
use irch.Chattr.{to_lower}
use irch.Mask.Items.{items, Matches, is_clear, is_wild, backslash}
use irch.Mask.Match.{matched, failed, match}
use irch.Mask.Match.Correct.{Settles, match-Settles}
use irch.Mask.Match.Escape.{Unslashed, match-star_escape}
use irch.Mask.Collapse.{collapse}
use irch.Mask.Collapse.Meaning.{Alike, collapse-Alike}

abbrev host_mask : List ℕ
host_mask = codes "*.exa?ple.\\*"

abbrev host_name : List ℕ
host_name = codes "irc.EXAMPLE.*"

collapsed : collapse (codes "a**?b?*\\**c") ≡ codes "a?*b?*\\**c"
unfolding collapse
collapsed = refl

host_matched : match host_mask host_name ≡ matched
unfolding match to_lower
host_matched = refl

host_failed : match host_mask (codes "irc.example.org") ≡ failed
unfolding match to_lower
host_failed = refl

host_mask-is_clear : is_clear (items host_mask) ≡ true
unfolding items is_clear
host_mask-is_clear = refl

match-Settles_example : Settles (Matches (items host_mask) host_name) (match host_mask host_name)
match-Settles_example = match-Settles host_mask host_name host_mask-is_clear

star_wild : is_wild b'*' ≡ true
unfolding is_wild
star_wild = refl

plain : Unslashed (codes "a")
unfolding to_lower
plain = (refl, tt)

match-star_escape_example :
    (match (b'*' ∷ backslash ∷ b'*' ∷ []) (codes "a*") ≡ failed)
    × Matches (items (b'*' ∷ backslash ∷ b'*' ∷ [])) (codes "a*")
match-star_escape_example = match-star_escape b'*' (codes "a") star_wild plain

collapse-Alike_example : Alike (items (collapse host_mask)) (items host_mask)
collapse-Alike_example = collapse-Alike host_mask
