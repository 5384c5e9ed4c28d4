-- ===== src/Crule/Progress.antt =====
-- ircd/crule.c: the scanner takes text away.
use irch.Base.{
  Bool, Bool-cases, List, Option, [], all_below, all_below_sound, arith, false, if◌then◌else◌, inl,
  inr, length, none, not, refl, some, suc, true, zero, ℕ, ◌+◌, ◌<◌, ◌==◌, ◌||◌, ◌∷◌, ◌≡◌, ◌≤◌,
}
use irch.Chattr.{is_alpha, is_alnum}
use irch.Crule.{
  Token, Errcode, Pos, Scan, gettoken, gettoken_from, getword, single_token, double_token,
  next_pending, scanned, scan_failed, starts_word, is_word_char, unknown, end, and_op, or_op,
  close_paren, comma, word, open_paren, not_op,
}
use irch.Crule.Parse.{is_word, max_word}

abbrev pub AllBytes : List ℕ → Type 0
AllBytes [] = Unit
AllBytes (c ∷ s) = (c < 256) × AllBytes s

unfoldable pub is_unfinished : Errcode → Bool
is_unfinished Errcode.unfinished = true
is_unfinished _ = false

-- A token that has been passed counts as one character.
unfoldable pub cost : Token → ℕ
cost word = 0
cost end = 0
cost unknown = 0
cost _ = 1

-- At most `n` characters are left, a passed token counted; a word's first character is one of a word.
pub record IsPos (n : ℕ) (pos : Pos) : Type 0 where
  pub small : length pos.rest + cost pos.next_tok ≤ n
  pub ready : is_word pos.next_tok ≡ true → length (getword max_word pos.rest).1 < length pos.rest
  pub bytes : AllBytes pos.rest

pub more_room : (m n : ℕ) (pos : Pos) → m ≤ n → IsPos m pos → IsPos n pos
more_room m n pos le p =
    let s = p.small in record { small = omega arith; ready = p.ready; bytes = p.bytes }

pub record IsScanned (n : ℕ) (r : Scan) : Type 0 where
  pub finished : is_unfinished r.errcode ≡ false
  pub pos : IsPos n r.pos

getword_le : (n : ℕ) (s : List ℕ) → length (getword n s).1 ≤ length s
unfolding getword
getword_le zero s = omega arith
getword_le (suc n) [] = omega arith
getword_le (suc n) (c ∷ s) = elim (Bool-cases (is_word_char c)) [
  | inl e ↦ rw e (omega (arith, getword_le n s))
  | inr e ↦ rw e (omega arith)
]

pub getword-AllBytes : (n : ℕ) (s : List ℕ) → AllBytes s → AllBytes (getword n s).1
unfolding getword
getword-AllBytes zero s h = h
getword-AllBytes (suc n) [] h = h
getword-AllBytes (suc n) (c ∷ s) (h0, h1) = elim (Bool-cases (is_word_char c)) [
  | inl e ↦ rw e (getword-AllBytes n s h1)
  | inr e ↦ rw e (h0, h1)
]

starts : ℕ → Bool
starts c = not (starts_word c) || is_word_char c

starts_table : all_below 256 starts ≡ true
unfolding all_below starts starts_word is_word_char is_alpha is_alnum
starts_table = refl

starts_lem : (c : ℕ) → c < 256 → starts_word c ≡ true → is_word_char c ≡ true
unfolding starts
starts_lem c h s = ground (arith, all_below_sound 256 starts c starts_table h)

getword_lt :
    (n c : ℕ) (s : List ℕ)
    → is_word_char c ≡ true
    → length (getword (suc n) (c ∷ s)).1 < length (c ∷ s)
unfolding getword
getword_lt n c s e = rw e (omega (arith, getword_le n s))

passed :
    (t : Token) (s : List ℕ) (n : ℕ)
    → is_word t ≡ false
    → cost t ≤ 1
    → length s < n
    → AllBytes s
    → IsScanned n (scanned t s)
unfolding scanned is_unfinished
passed t s n w c h b = record {
  finished = refl;
  pos = record { small = omega arith; ready = λ e. cc; bytes = b };
}

failed : (s : List ℕ) (n : ℕ) → length s < n → AllBytes s → IsScanned n (scan_failed s)
unfolding scan_failed is_unfinished cost is_word
failed s n h b = record {
  finished = refl;
  pos = record { small = omega arith; ready = λ e. cc; bytes = b };
}

choose :
    (n : ℕ) (t : Bool) (x y : Scan)
    → IsScanned n x
    → (t ≡ false → IsScanned n y)
    → IsScanned n (if t then x else y)
choose n true x y h k = h
choose n false x y h k = k refl

word_scanned :
    (c : ℕ) (s : List ℕ)
    → c < 256
    → AllBytes s
    → starts_word c ≡ true
    → IsScanned (suc (length s)) (scanned word (c ∷ s))
unfolding scanned is_unfinished cost
word_scanned c s h b e = record {
  finished = refl;
  pos = record {
    small = omega arith;
    ready = λ w. getword_lt 78 c s (starts_lem c h e);
    bytes = (h, b);
  };
}

-- A character that is not consumed is an error if it starts no word.
kept_failed :
    (c : ℕ) (s : List ℕ) → c < 256 → AllBytes s → IsScanned (suc (length s)) (scan_failed (c ∷ s))
unfolding scan_failed is_unfinished cost is_word
kept_failed c s h b = record {
  finished = refl;
  pos = record { small = omega arith; ready = λ e. cc; bytes = (h, b) };
}

last_token :
    (c : ℕ) (s : List ℕ)
    → c < 256
    → AllBytes s
    → IsScanned
        (suc (length s))
        (if starts_word c then scanned word (c ∷ s) else scan_failed (c ∷ s))
last_token c s h b = elim (Bool-cases (starts_word c)) [
  | inl e ↦ rw e (word_scanned c s h b e)
  | inr e ↦ rw e (kept_failed c s h b)
]

single_token_lem :
    (c : ℕ) (s : List ℕ) → c < 256 → AllBytes s → IsScanned (suc (length s)) (single_token c s)
unfolding single_token cost is_word
single_token_lem c s h b =
    let lt : length s < suc (length s) = omega arith in
    let one : 1 ≤ 1 = omega arith in
    let here = λ (t : Token) (w : is_word t ≡ false) (k : cost t ≤ 1).
      passed t s (suc (length s)) w k lt b in
    choose _ (c == b'!') _ _ (here not_op refl one) λ _.
      choose _ (c == b'(') _ _ (here open_paren refl one) λ _.
        choose _ (c == b')') _ _ (here close_paren refl one) λ _.
          choose _ (c == b',') _ _ (here comma refl one)
            λ _. choose _ (c == b':') _ _ (here end refl (omega arith)) λ _. last_token c s h b

double_token_lem :
    (pending : Option ℕ) (c : ℕ) (t : Token) (s : List ℕ) (onward : Scan)
    → is_word t ≡ false
    → cost t ≤ 1
    → AllBytes s
    → IsScanned (suc (length s)) onward
    → IsScanned (suc (length s)) (double_token pending c t s onward)
unfolding double_token
double_token_lem none c t s onward w k b h = h
double_token_lem (some p) c t s onward w k b h =
    choose _ (p == c) _ _ (passed t s _ w k (omega arith) b) λ _. failed s _ (omega arith) b

more_scanned : (m n : ℕ) (r : Scan) → m ≤ n → IsScanned m r → IsScanned n r
more_scanned m n r le h = record { finished = h.finished; pos = more_room m n r.pos le h.pos }

nothing_left : IsScanned 0 (scanned end [])
unfolding scanned is_unfinished cost is_word
nothing_left = record {
  finished = refl;
  pos = record { small = omega arith; ready = λ e. cc; bytes = tt };
}

gettoken_from_lem :
    (pending : Option ℕ) (s : List ℕ) → AllBytes s → IsScanned (length s) (gettoken_from pending s)
unfolding gettoken_from is_word cost
gettoken_from_lem pending [] b = nothing_left
gettoken_from_lem pending (c ∷ s) (h, b) =
    let onward = gettoken_from (next_pending pending c) s in
    let r =
      more_scanned (length s) (suc (length s)) onward (omega arith)
        (gettoken_from_lem (next_pending pending c) s b) in
    let one : 1 ≤ 1 = omega arith in
    choose _ (c == b' ' || c == 9) _ _ r λ _.
      choose _ (c == b'&') _ _ (double_token_lem pending c and_op s onward refl one b r) λ _.
        choose _ (c == b'|') _ _ (double_token_lem pending c or_op s onward refl one b r)
          λ _. single_token_lem c s h b

pub gettoken_lem : (s : List ℕ) → AllBytes s → IsScanned (length s) (gettoken s)
unfolding gettoken
gettoken_lem s b = gettoken_from_lem none s b
