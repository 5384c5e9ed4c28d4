-- ===== src/Parse/Words/RoundTrip.antt =====
-- ircd/parse.c: a line that is written from its parameters is read back, and no line has too many.
use irch.Base.{
  Bool, List, [], ap, arith, false, length, length-append, min, not, refl, suc, true, zero, ℕ, ◌&&◌,
  ◌++◌, ◌+◌, ◌<◌, ◌==◌, ◌≡◌, ◌∷◌, ◌∙◌,
}
use irch.Parse.Words.{maxpara, parameters, past_word, skip_blanks, split, word}

unfoldable pub has_no_blank : List ℕ → Bool
has_no_blank [] = true
has_no_blank (c ∷ s) = not (c == b' ') && has_no_blank s

-- A parameter that needs no colon.
unfoldable pub is_middle : List ℕ → Bool
is_middle [] = false
is_middle (c ∷ s) = not (c == b':') && has_no_blank (c ∷ s)

unfoldable pub are_middle : List (List ℕ) → Bool
are_middle [] = true
are_middle (p ∷ ps) = is_middle p && are_middle ps

-- The text of some parameters and of a last one, which may be anything.
unfoldable pub line_of : List (List ℕ) → List ℕ → List ℕ
line_of [] last = b':' ∷ last
line_of (p ∷ ps) last = p ++ b' ' ∷ line_of ps last

pub word-append : (p rest : List ℕ) → has_no_blank p ≡ true → word (p ++ b' ' ∷ rest) ≡ p
unfolding has_no_blank word
word-append [] rest h = refl
word-append (c ∷ p) rest h = ground (arith, word-append p rest)

pub past_word-append :
    (p rest : List ℕ) → has_no_blank p ≡ true → past_word (p ++ b' ' ∷ rest) ≡ b' ' ∷ rest
unfolding has_no_blank past_word
past_word-append [] rest h = refl
past_word-append (c ∷ p) rest h = ground (arith, past_word-append p rest)

pub split-blank :
    (fuel : ℕ) (k : Bool) (count i : ℕ) (s : List ℕ)
    → split fuel k count i (b' ' ∷ s) ≡ split fuel k count i s
unfolding split skip_blanks
split-blank zero k count i s = refl
split-blank (suc fuel) k count i s = refl

pub split-middle :
    (fuel : ℕ) (k : Bool) (count i : ℕ) (p rest : List ℕ)
    → is_middle p ≡ true
    → suc i < count
    → split (suc fuel) k count i (p ++ b' ' ∷ rest) ≡ p ∷ split fuel k count (suc i) rest
unfolding is_middle has_no_blank split skip_blanks
split-middle fuel k count i [] rest h room = cc
split-middle fuel k count i (c ∷ p) rest h room = ground (
  arith,
  word-append (c ∷ p) rest,
  past_word-append (c ∷ p) rest,
  split-blank fuel k count (suc i) rest,
)

split-last :
    (fuel : ℕ) (count i : ℕ) (last : List ℕ)
    → split (suc fuel) false count i (b':' ∷ last) ≡ last ∷ []
unfolding split skip_blanks
split-last fuel count i last = refl

split-line_of :
    (fuel : ℕ) (count i : ℕ) (ps : List (List ℕ)) (last : List ℕ)
    → are_middle ps ≡ true
    → i + length ps < count
    → length ps < fuel
    → split fuel false count i (line_of ps last) ≡ ps ++ last ∷ []
unfolding are_middle line_of
split-line_of zero count i ps last h room enough = absurd (omega arith)
split-line_of (suc fuel) count i [] last h room enough = split-last fuel count i last
split-line_of (suc fuel) count i (p ∷ ps) last h room enough =
    split-middle fuel false count i p (line_of ps last) (ground arith) (omega arith)
    ∙ ap (λ rest. p ∷ rest)
        (split-line_of fuel count (suc i) ps last (ground arith) (omega arith) (omega arith))

length-line_of : (ps : List (List ℕ)) (last : List ℕ) → length ps < length (line_of ps last)
unfolding line_of
length-line_of [] last = omega arith
length-line_of (p ∷ ps) last =
    omega (arith, length-line_of ps last, length-append p (b' ' ∷ line_of ps last))

-- Parameters that are not empty, have no blank and do not start with a colon, and a last one that may be
-- anything, are read back from the line in which they are separated by blanks and a colon marks the
-- last, as long as there are no more than the command takes and `para` has room for.
pub parameters-line_of :
    (paramcount i : ℕ) (ps : List (List ℕ)) (last : List ℕ)
    → are_middle ps ≡ true
    → i + length ps < paramcount
    → i + length ps < maxpara
    → parameters false paramcount i (line_of ps last) ≡ ps ++ last ∷ []
unfolding parameters
parameters-line_of paramcount i ps last h room fits =
    split-line_of (suc (length (line_of ps last))) (min paramcount maxpara) i ps last h
      (omega arith) (omega (arith, length-line_of ps last))
