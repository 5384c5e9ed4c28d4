-- ===== src/Numnick/Base64.antt =====
-- ircd/numnicks.c: `convert2y`, `convert2n`, `base64toint` and `inttobase64`. A character is its
-- code, a C string the list of the characters before its NUL. `unsigned int` has 32 bits.
pub mod RoundTrip
use irch.Base.{
  ℕ, zero, suc, ◌+◌, ◌*◌, ◌/◌, ◌%◌, ◌^◌, ◌<◌, ◌≡◌, refl, Bool, true, false, ◌&&◌, not, ◌||◌, Option,
  none, some, List, [], ◌∷◌, arith, ◌==◌, get_or, ==_iff, ltb, all_below, all_below_sound,
}

-- Characters to convert a numnick to.
unfoldable pub convert2y : List ℕ
convert2y =
    65 ∷ 66 ∷ 67 ∷ 68 ∷ 69 ∷ 70 ∷ 71 ∷ 72 ∷ 73 ∷ 74 ∷ 75 ∷ 76 ∷ 77 ∷ 78 ∷ 79 ∷ 80 ∷ 81 ∷ 82 ∷ 83
    ∷ 84 ∷ 85 ∷ 86 ∷ 87 ∷ 88 ∷ 89 ∷ 90 ∷ 97 ∷ 98 ∷ 99 ∷ 100 ∷ 101 ∷ 102 ∷ 103 ∷ 104 ∷ 105 ∷ 106
    ∷ 107 ∷ 108 ∷ 109 ∷ 110 ∷ 111 ∷ 112 ∷ 113 ∷ 114 ∷ 115 ∷ 116 ∷ 117 ∷ 118 ∷ 119 ∷ 120 ∷ 121 ∷ 122
    ∷ 48 ∷ 49 ∷ 50 ∷ 51 ∷ 52 ∷ 53 ∷ 54 ∷ 55 ∷ 56 ∷ 57 ∷ 91 ∷ 93 ∷ []

-- The value of a character.
unfoldable pub convert2n : List ℕ
convert2n =
    0 ∷ 0 ∷ 0 ∷ 0 ∷ 0 ∷ 0 ∷ 0 ∷ 0 ∷ 0 ∷ 0 ∷ 0 ∷ 0 ∷ 0 ∷ 0 ∷ 0 ∷ 0 ∷ 0 ∷ 0 ∷ 0 ∷ 0 ∷ 0 ∷ 0 ∷ 0 ∷ 0
    ∷ 0 ∷ 0 ∷ 0 ∷ 0 ∷ 0 ∷ 0 ∷ 0 ∷ 0 ∷ 0 ∷ 0 ∷ 0 ∷ 0 ∷ 0 ∷ 0 ∷ 0 ∷ 0 ∷ 0 ∷ 0 ∷ 0 ∷ 0 ∷ 0 ∷ 0 ∷ 0 ∷ 0
    ∷ 52 ∷ 53 ∷ 54 ∷ 55 ∷ 56 ∷ 57 ∷ 58 ∷ 59 ∷ 60 ∷ 61 ∷ 0 ∷ 0 ∷ 0 ∷ 0 ∷ 0 ∷ 0 ∷ 0 ∷ 0 ∷ 1 ∷ 2 ∷ 3
    ∷ 4 ∷ 5 ∷ 6 ∷ 7 ∷ 8 ∷ 9 ∷ 10 ∷ 11 ∷ 12 ∷ 13 ∷ 14 ∷ 15 ∷ 16 ∷ 17 ∷ 18 ∷ 19 ∷ 20 ∷ 21 ∷ 22 ∷ 23
    ∷ 24 ∷ 25 ∷ 62 ∷ 0 ∷ 63 ∷ 0 ∷ 0 ∷ 0 ∷ 26 ∷ 27 ∷ 28 ∷ 29 ∷ 30 ∷ 31 ∷ 32 ∷ 33 ∷ 34 ∷ 35 ∷ 36 ∷ 37
    ∷ 38 ∷ 39 ∷ 40 ∷ 41 ∷ 42 ∷ 43 ∷ 44 ∷ 45 ∷ 46 ∷ 47 ∷ 48 ∷ 49 ∷ 50 ∷ 51 ∷ 0 ∷ 0 ∷ 0 ∷ 0 ∷ 0 ∷ 0
    ∷ 0 ∷ 0 ∷ 0 ∷ 0 ∷ 0 ∷ 0 ∷ 0 ∷ 0 ∷ 0 ∷ 0 ∷ 0 ∷ 0 ∷ 0 ∷ 0 ∷ 0 ∷ 0 ∷ 0 ∷ 0 ∷ 0 ∷ 0 ∷ 0 ∷ 0 ∷ 0 ∷ 0
    ∷ 0 ∷ 0 ∷ 0 ∷ 0 ∷ 0 ∷ 0 ∷ 0 ∷ 0 ∷ 0 ∷ 0 ∷ 0 ∷ 0 ∷ 0 ∷ 0 ∷ 0 ∷ 0 ∷ 0 ∷ 0 ∷ 0 ∷ 0 ∷ 0 ∷ 0 ∷ 0 ∷ 0
    ∷ 0 ∷ 0 ∷ 0 ∷ 0 ∷ 0 ∷ 0 ∷ 0 ∷ 0 ∷ 0 ∷ 0 ∷ 0 ∷ 0 ∷ 0 ∷ 0 ∷ 0 ∷ 0 ∷ 0 ∷ 0 ∷ 0 ∷ 0 ∷ 0 ∷ 0 ∷ 0 ∷ 0
    ∷ 0 ∷ 0 ∷ 0 ∷ 0 ∷ 0 ∷ 0 ∷ 0 ∷ 0 ∷ 0 ∷ 0 ∷ 0 ∷ 0 ∷ 0 ∷ 0 ∷ 0 ∷ 0 ∷ 0 ∷ 0 ∷ 0 ∷ 0 ∷ 0 ∷ 0 ∷ 0 ∷ 0
    ∷ 0 ∷ 0 ∷ 0 ∷ 0 ∷ 0 ∷ 0 ∷ 0 ∷ 0 ∷ 0 ∷ 0 ∷ 0 ∷ 0 ∷ 0 ∷ 0 ∷ 0 ∷ 0 ∷ 0 ∷ 0 ∷ 0 ∷ 0 ∷ 0 ∷ 0 ∷ 0 ∷ 0
    ∷ 0 ∷ 0 ∷ 0 ∷ 0 ∷ 0 ∷ 0 ∷ 0 ∷ []

unfoldable pub char_of : ℕ → ℕ
unfolding convert2y
char_of v = get_or convert2y v 0

unfoldable pub value_of : ℕ → ℕ
unfolding convert2n
value_of c = get_or convert2n c 0

-- `while (*s) { i <<= NUMNICKLOG; i += convert2n[(unsigned char) *s++]; }`
unfoldable pub base64_loop : ℕ → List ℕ → ℕ
base64_loop i [] = i
base64_loop i (c ∷ s) = base64_loop ((i * 64 + value_of c) % 2 ^ 32) s

-- The first character is read before the loop's test: with an empty string the loop starts behind
-- the NUL, which is `none` here.
unfoldable pub base64toint : List ℕ → Option ℕ
unfolding base64_loop value_of
base64toint [] = none
base64toint (c ∷ s) = some (base64_loop (value_of c) s)

-- `while (count > 0) { buf[--count] = convert2y[v & NUMNICKMASK]; v >>= NUMNICKLOG; }`, with the part
-- of the buffer that is written.
unfoldable pub inttobase64_loop : ℕ → ℕ → List ℕ → List ℕ
inttobase64_loop zero v buf = buf
inttobase64_loop (suc count) v buf = inttobase64_loop count (v / 64) (char_of (v % 64) ∷ buf)

unfoldable pub inttobase64 : ℕ → ℕ → List ℕ
unfolding inttobase64_loop char_of
inttobase64 v count = inttobase64_loop count v []

values_table : all_below 64 (λ v. value_of (char_of v) == v) ≡ true
unfolding all_below value_of char_of
values_table = refl

pub value_of-char_of : (v : ℕ) → v < 64 → value_of (char_of v) ≡ v
value_of-char_of v h = (==_iff _ v).0 (all_below_sound 64 _ v values_table h)

values_below : all_below 256 (λ c. ltb (value_of c) 64) ≡ true
unfolding all_below value_of
values_below = refl

contains : List ℕ → ℕ → Bool
contains [] c = false
contains (d ∷ ds) c = c == d || contains ds c

-- The characters of the alphabet.
unfoldable pub is_digit : ℕ → Bool
unfolding convert2y contains
is_digit c = contains convert2y c

digit_facts : ℕ → Bool
digit_facts c = not (is_digit c) || (char_of (value_of c) == c && ltb (value_of c) 64)

digits_table : all_below 256 digit_facts ≡ true
unfolding all_below value_of char_of is_digit digit_facts
digits_table = refl

pub digit_lem :
    (c : ℕ) → c < 256 → is_digit c ≡ true → (char_of (value_of c) ≡ c) × (value_of c < 64)
unfolding digit_facts
digit_lem c h d = ground (arith, all_below_sound 256 digit_facts c digits_table h)

all_lt : ℕ → List ℕ → Bool
all_lt n [] = true
all_lt n (x ∷ xs) = ltb x n && all_lt n xs

get_or-lt : (n : ℕ) (xs : List ℕ) (i : ℕ) → 0 < n → all_lt n xs ≡ true → get_or xs i 0 < n
unfolding all_lt
get_or-lt n [] i p h = p
get_or-lt n (x ∷ xs) zero p h = ground arith
get_or-lt n (x ∷ xs) (suc i) p h = get_or-lt n xs i p (ground arith)

-- Every character has a value of six bits.
pub value_of-lt : (c : ℕ) → value_of c < 64
unfolding value_of all_lt convert2n
value_of-lt c = get_or-lt 64 convert2n c (omega arith) refl
