-- ===== src/Parse/Words/Bounds.antt =====
-- ircd/parse.c: `para` is large enough, and so is the fuel of the loop.
use irch.Base.{
  Bool, List, List-cases, [], arith, false, inl, inr, length, min, refl, suc, zero, ℕ, ◌+◌, ◌<◌,
  ◌==◌, ◌≡◌, ◌≤◌, ◌∷◌,
}
use irch.Parse.Words.{maxpara, parameters, past_word, skip_blanks, split}

skip-le : (s : List ℕ) → length (skip_blanks s) ≤ length s
unfolding skip_blanks
skip-le [] = omega arith
skip-le (c ∷ s) = ground (arith, skip-le s)

past-le : (s : List ℕ) → length (past_word s) ≤ length s
unfolding past_word
past-le [] = omega arith
past-le (c ∷ s) = ground (arith, past-le s)

skip-head : (s : List ℕ) (c : ℕ) (rest : List ℕ) → skip_blanks s ≡ c ∷ rest → (c == b' ') ≡ false
unfolding skip_blanks
skip-head [] c rest h = cc
skip-head (d ∷ s) c rest h = ground (arith, skip-head s c rest)

-- A round takes a character.
round-lt :
    (s : List ℕ) (c : ℕ) (rest : List ℕ)
    → skip_blanks s ≡ c ∷ rest
    → length (past_word (c ∷ rest)) < length s
unfolding past_word
round-lt s c rest h =
    let n : length (skip_blanks s) ≡ suc (length rest) = rw h refl in
    ground (arith, skip-head s c rest h, past-le rest, skip-le s)

split-enough :
    (fuel fuel' : ℕ) (k : Bool) (count i : ℕ) (s : List ℕ)
    → length s < fuel
    → length s < fuel'
    → split fuel k count i s ≡ split fuel' k count i s
unfolding split
split-enough zero fuel' k count i s a b = absurd (omega arith)
split-enough (suc fuel) zero k count i s a b = absurd (omega arith)
split-enough (suc fuel) (suc fuel') k count i s a b = elim (List-cases (skip_blanks s)) [
  | inl e ↦ rw (split, e) refl
  | inr (c, rest, e) ↦
      let less = round-lt s c rest e in
      rw (split, e)
        (ground (
          arith,
          split-enough fuel fuel' k count (suc i) (past_word (c ∷ rest)) (omega arith)
              (omega arith),
        ))
]

split-count :
    (fuel : ℕ) (k : Bool) (count i room : ℕ) (s : List ℕ)
    → count ≤ room
    → i < room
    → i + length (split fuel k count i s) ≤ room
unfolding split
split-count zero k count i room s a b = omega arith
split-count (suc fuel) k count i room s a b = elim (List-cases (skip_blanks s)) [
  | inl e ↦ rw (split, e) (omega arith)
  | inr (c, rest, e) ↦
      rw (split, e) (ground (arith, split-count fuel k count (suc i) room (past_word (c ∷ rest))))
]

-- However long a line is, the parameters and the null behind them fit into `para`, of MAXPARA + 2
-- pointers, also with one more in front; a command that takes a number of parameters gets no more; and
-- the fuel is enough, since more rounds change nothing.
pub parameters-bounds :
    (keeps_colon : Bool) (paramcount i fuel : ℕ) (s : List ℕ)
    → i ≤ 1
    → i < paramcount
    → length s < fuel
    → (suc (i + length (parameters keeps_colon paramcount i s)) < maxpara + 2)
      × (i + length (parameters keeps_colon paramcount i s) ≤ paramcount)
      × (split fuel keeps_colon (min paramcount maxpara) i s
          ≡ parameters keeps_colon paramcount i s)
unfolding parameters
parameters-bounds k paramcount i fuel s h some_room enough =
    let count = split-count (suc (length s)) k (min paramcount maxpara) i in
    (
      omega (arith, count maxpara s (omega arith) (omega arith)),
      count paramcount s (omega arith) some_room,
      split-enough fuel (suc (length s)) k (min paramcount maxpara) i s enough (omega arith),
    )
