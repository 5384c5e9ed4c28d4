-- ===== src/Parse/Words.antt =====
-- ircd/parse.c: the parameters of a line.
pub mod RoundTrip
pub mod Bounds
use irch.Base.{
  Bool, List, [], arith, drop, false, if◌then◌else◌, leb, length, min, none, some, suc, true, zero,
  ℕ, ◌+◌, ◌-◌, ◌==◌, ◌∷◌, not, ◌&&◌,
}

-- MAXPARA of include/msg.h; `para` has room for MAXPARA + 2.
abbrev pub maxpara : ℕ
maxpara = 15

-- `while (*s == ' ') s++;`
unfoldable pub skip_blanks : List ℕ → List ℕ
skip_blanks [] = []
skip_blanks (c ∷ s) = let onward = skip_blanks s in if c == b' ' then onward else c ∷ s

-- What a parameter is when the handler reads it, since the next round writes NUL over the blank.
unfoldable pub word : List ℕ → List ℕ
word [] = []
word (c ∷ s) = let onward = word s in if c == b' ' then [] else c ∷ onward

-- `for (; *s != ' ' && *s; s++);`
unfoldable pub past_word : List ℕ → List ℕ
past_word [] = []
past_word (c ∷ s) = let onward = past_word s in if c == b' ' then c ∷ s else onward

-- The loop that stores parameters behind the first `i` of `para`; `keeps_colon` is for numerics. Each
-- round but the last takes a character, so a round for each character and one more is enough.
unfoldable pub split : ℕ → Bool → ℕ → ℕ → List ℕ → List (List ℕ)
unfolding skip_blanks word past_word
split zero keeps_colon paramcount i s = []
split (suc fuel) keeps_colon paramcount i s = elim (skip_blanks s) [
  | [] ↦ []
  | c ∷ rest ↦ elim (c == b':') [
    | true ↦ (if keeps_colon then c ∷ rest else rest) ∷ []
    | false ↦ elim (leb paramcount (suc i)) [
      | true ↦ (c ∷ rest) ∷ []
      | false ↦ word (c ∷ rest) ∷ split fuel keeps_colon paramcount (suc i) (past_word (c ∷ rest))
    ]
  ]
]

unfoldable pub parameters : Bool → ℕ → ℕ → List ℕ → List (List ℕ)
parameters keeps_colon paramcount i s =
    split (suc (length s)) keeps_colon (min paramcount maxpara) i s
