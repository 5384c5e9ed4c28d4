-- ===== src/Parse/Line/Numerics.antt =====
-- ircd/parse.c: a numeric that a server sends.
use irch.Base.{
  Bool-cases, List, [], not, inl, inr, ap, arith, false, if◌then◌else◌, length, none, refl, some,
  suc, true, ℕ, ◌++◌, ◌*◌, ◌+◌, ◌<◌, ◌==◌, ◌∙◌, ◌∷◌, ◌≡◌,
}
use irch.Chattr.Case.{is_digit_lem}
use irch.Parse.{Commands}
use irch.Parse.Line.{
  Network, behind_blank, char_at, crash, deliver, directed, find_prefix, found, number_of, numeric,
  numeric_line, numeric_prefix, numeric_source, parse_server, past_prefix, server_line, source_of,
}
use irch.Parse.Words.{parameters, past_word, skip_blanks, split, word}
use irch.Parse.Words.RoundTrip.{is_middle, split-blank, split-middle}

-- The destination and what is left of the line, its colon included.
parameters-rest :
    (dest : List ℕ) (t : ℕ) (text : List ℕ)
    → is_middle dest ≡ true
    → (t == b' ') ≡ false
    → parameters true 2 0 (b' ' ∷ dest ++ b' ' ∷ t ∷ text) ≡ dest ∷ (t ∷ text) ∷ []
unfolding parameters split skip_blanks
parameters-rest dest t text h ne =
    let len = length (dest ++ b' ' ∷ t ∷ text) in
    split-blank (suc (suc len)) true 2 0 (dest ++ b' ' ∷ t ∷ text)
    ∙ split-middle (suc len) true 2 0 dest (t ∷ text) h (omega arith)
    ∙ ap (λ ps. dest ∷ ps) (ground arith)

module _ (net : Network) (cptr source p q : ℕ) (rest : List ℕ) where
  source_of-server :
      (p == b':') ≡ false
      → (p == b' ') ≡ false
      → (q == b' ') ≡ false
      → net.find_n_server (p ∷ q ∷ []) ≡ some source
      → net.cli_from source ≡ cptr
      → source_of net cptr (p ∷ q ∷ b' ' ∷ rest) ≡ found source (b' ' ∷ rest)
  unfolding source_of numeric_source past_prefix find_prefix numeric_prefix directed char_at word
      past_word
  source_of-server colon p_blank q_blank known toward = ground arith

module _ (a b c : ℕ) (a_lt : a < 10) (b_lt : b < 10) (c_lt : c < 10) (rest : List ℕ) where
  number_of-digits :
      number_of ((b'0' + a) ∷ (b'0' + b) ∷ (b'0' + c) ∷ b' ' ∷ rest) ≡ a * 100 + b * 10 + c
  unfolding number_of char_at
  number_of-digits = omega arith

  server_line-digits :
      (commands : Commands) (source : ℕ)
      → server_line commands source ((b'0' + a) ∷ (b'0' + b) ∷ (b'0' + c) ∷ b' ' ∷ rest)
        ≡ numeric_line source ((b'0' + a) ∷ (b'0' + b) ∷ (b'0' + c) ∷ b' ' ∷ rest) (b' ' ∷ rest)
  unfolding server_line behind_blank past_word word
  server_line-digits commands source = ground (arith, is_digit_lem a a_lt)

skip_blanks-digit :
    (a : ℕ) (rest : List ℕ) → skip_blanks (b' ' ∷ (b'0' + a) ∷ rest) ≡ (b'0' + a) ∷ rest
unfolding skip_blanks
skip_blanks-digit a rest = ground arith

-- What becomes of a numeric whose message is null.
deliver-numeric :
    (number source : ℕ) (s : List ℕ) (ps : List (List ℕ))
    → parameters true 2 0 s ≡ ps
    → deliver number source none (parameters (not (number == 0)) 2 0 s)
      ≡ (if number == 0 then crash else numeric number source ps)
unfolding deliver
deliver-numeric number source s ps h = elim (Bool-cases (number == 0)) [
  | inl e ↦ rw e refl
  | inr e ↦ rw (e, h) refl
]

-- A line that begins with the two characters of a server in the direction of the link and goes on with
-- three digits, a destination and a text, with one blank between any two of them, the text not starting
-- with a blank: the numeric is passed on with the number that the digits write, the destination and the
-- whole text, its colon included, unless the number is 0; then the parser follows a message that is null.
pub parse_server-numeric :
    (commands : Commands) (net : Network) (cptr source p q a b c : ℕ) (dest : List ℕ) (t : ℕ)
    (text : List ℕ)
    → (p == b':') ≡ false
    → (p == b' ') ≡ false
    → (q == b' ') ≡ false
    → net.find_n_server (p ∷ q ∷ []) ≡ some source
    → net.cli_from source ≡ cptr
    → a < 10
    → b < 10
    → c < 10
    → is_middle dest ≡ true
    → (t == b' ') ≡ false
    → parse_server commands net false cptr
        (p ∷ q ∷ b' ' ∷ (b'0' + a) ∷ (b'0' + b) ∷ (b'0' + c) ∷ b' ' ∷ dest ++ b' ' ∷ t ∷ text)
      ≡ (if a * 100 + b * 10 + c == 0
          then crash
          else numeric (a * 100 + b * 10 + c) source (dest ∷ (t ∷ text) ∷ []))
unfolding parse_server numeric_line deliver
parse_server-numeric commands net cptr source p q a b c dest t text colon p_blank q_blank known
      toward a_lt b_lt c_lt middle ne =
    let rest : List ℕ = dest ++ b' ' ∷ t ∷ text in
    let line : List ℕ = (b'0' + a) ∷ (b'0' + b) ∷ (b'0' + c) ∷ b' ' ∷ rest in
    let from = source_of-server net cptr source p q line colon p_blank q_blank known toward in
    let read = server_line-digits a b c a_lt b_lt c_lt rest commands source in
    let number = number_of-digits a b c a_lt b_lt c_lt rest in
    let para = parameters-rest dest t text middle ne in
    let digits = skip_blanks-digit a ((b'0' + b) ∷ (b'0' + c) ∷ b' ' ∷ rest) in
    rw (parse_server, from, digits, read, numeric_line, number)
      (deliver-numeric (a * 100 + b * 10 + c) source (b' ' ∷ rest) (dest ∷ (t ∷ text) ∷ []) para)
