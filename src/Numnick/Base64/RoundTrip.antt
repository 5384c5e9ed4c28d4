-- ===== src/Numnick/Base64/RoundTrip.antt =====
-- ircd/numnicks.c: `base64toint` and `inttobase64` undo one another.
use native.Mathlib.Nat.{pow-suc, pow-le-pow_right}
use mathlib.Core.List.{append-nil}
use irch.Base.{
  ℕ, zero, suc, ◌+◌, ◌*◌, ◌/◌, ◌%◌, ◌^◌, ◌≤◌, ◌<◌, ◌≡◌, ◌≢◌, refl, ap, ◌∙◌, true, some, List, [],
  ◌∷◌, ◌++◌, arith, length,
}
use irch.Numnick.Base64.{
  char_of, value_of, base64_loop, base64toint, inttobase64_loop, inttobase64, value_of-char_of,
  is_digit, digit_lem, value_of-lt,
}

pow_step : (count v : ℕ) → v < 64 ^ suc count → v / 64 < 64 ^ count
pow_step count v h = let h' : v < 64 ^ count * 64 = rw (← pow-suc) h in omega arith

-- The digits of `v` extend the number read so far.
loop-inttobase64_loop :
    (count i v : ℕ) (buf : List ℕ)
    → i < 2 ^ 32
    → v < 64 ^ count
    → base64_loop i (inttobase64_loop count v buf) ≡ base64_loop ((i * 64 ^ count + v) % 2 ^ 32) buf
unfolding inttobase64_loop base64_loop
loop-inttobase64_loop zero i v buf r h = ap (λ k. base64_loop k buf) (omega arith)
loop-inttobase64_loop (suc count) i v buf r h =
    loop-inttobase64_loop count i (v / 64) (char_of (v % 64) ∷ buf) r (pow_step count v h)
    ∙ ap (λ k. base64_loop k buf)
        (rw (value_of-char_of (v % 64) (omega arith), pow-suc 64 count) (omega arith))

base64toint-loop : (s : List ℕ) → s ≢ [] → base64toint s ≡ some (base64_loop 0 s)
unfolding base64toint
base64toint-loop [] h = absurd (h refl)
base64toint-loop (c ∷ s) h =
    let lt = value_of-lt c in ap (λ k. some (base64_loop k s)) (omega arith)

length-inttobase64_loop :
    (count v : ℕ) (buf : List ℕ) → length (inttobase64_loop count v buf) ≡ count + length buf
unfolding inttobase64_loop
length-inttobase64_loop zero v buf = omega arith
length-inttobase64_loop (suc count) v buf =
    omega (arith, length-inttobase64_loop count (v / 64) (char_of (v % 64) ∷ buf))

-- `inttobase64` writes exactly `count` characters.
pub length-inttobase64 : (v count : ℕ) → length (inttobase64 v count) ≡ count
unfolding inttobase64
length-inttobase64 v count = omega (arith, length-inttobase64_loop count v [])

ne-nil_of_length : (s : List ℕ) → 0 < length s → s ≢ []
ne-nil_of_length s h = ground arith

-- A number that fits in `count` characters and in 32 bits is read back from its text.
pub base64toint-inttobase64 :
    (v count : ℕ)
    → 0 < count
    → v < 64 ^ count
    → v < 2 ^ 32
    → base64toint (inttobase64 v count) ≡ some v
unfolding inttobase64 base64_loop
base64toint-inttobase64 v count pos fits word =
    base64toint-loop (inttobase64 v count)
      (ne-nil_of_length _ (omega (arith, length-inttobase64 v count)))
    ∙ ap some (loop-inttobase64_loop count 0 v [] (omega arith) fits ∙ omega arith)

abbrev pub AllDigits : List ℕ → Type 0
AllDigits [] = Unit
AllDigits (c ∷ s) = (c < 256) × (is_digit c ≡ true) × AllDigits s

small_pow : (j : ℕ) → j ≤ 5 → 64 ^ j ≤ 2 ^ 30
small_pow j h = pow-le-pow_right {n = 64} (omega arith) h

-- One more character: the number grows by a digit, without wrapping.
digit_step :
    (i j c : ℕ)
    → i < 64 ^ j
    → j + 1 ≤ 5
    → ((i * 64 + value_of c) % 2 ^ 32 ≡ i * 64 + value_of c) × (i * 64 + value_of c < 64 ^ suc j)
digit_step i j c lt fits =
    let v = value_of-lt c in
    let s = small_pow j (omega arith) in
    let b : i * 64 + value_of c < 64 ^ j * 64 = omega arith in
    let p : 64 ^ suc j ≤ 2 ^ 30 = small_pow (suc j) (omega arith) in
    let q : 64 ^ suc j ≡ 64 ^ j * 64 = pow-suc 64 j in (omega arith, omega arith)

-- Writing the number that was read gives the characters again, in front of what is there.
inttobase64_loop-base64_loop :
    (s out : List ℕ) (n i j k : ℕ)
    → n ≡ length s + k
    → AllDigits s
    → i < 64 ^ j
    → j + length s ≤ 5
    → inttobase64_loop n (base64_loop i s) out ≡ inttobase64_loop k i (s ++ out)
unfolding inttobase64_loop base64_loop
inttobase64_loop-base64_loop [] out n i j k e d lt fits = let same : n ≡ k = omega arith in rw same
inttobase64_loop-base64_loop (c ∷ s) out n i j k e (byte, digit, ds) lt fits =
    let (wraps, grows) = digit_step i j c lt (omega arith) in
    let (back, small) = digit_lem c byte digit in
    let q : (i * 64 + value_of c) / 64 ≡ i = omega arith in
    let r : (i * 64 + value_of c) % 64 ≡ value_of c = omega arith in
    rw wraps (
      inttobase64_loop-base64_loop s out n (i * 64 + value_of c) (suc j) (suc k) (omega arith) ds
        grows (omega arith)
      ∙ rw (q, r, back))

write_read :
    (s : List ℕ) → AllDigits s → length s ≤ 5 → inttobase64 (base64_loop 0 s) (length s) ≡ s
unfolding inttobase64 inttobase64_loop
write_read s d fits =
    inttobase64_loop-base64_loop s [] (length s) 0 0 0 (omega arith) d (omega arith) (omega arith)
    ∙ append-nil s

-- The text of at most five characters of the alphabet is written again from the number it stands for.
pub inttobase64-base64toint :
    (s : List ℕ) {v : ℕ}
    → AllDigits s
    → length s ≤ 5
    → base64toint s ≡ some v
    → inttobase64 v (length s) ≡ s
unfolding base64toint
inttobase64-base64toint [] d fits e = cc
inttobase64-base64toint (c ∷ s) {v} d fits e =
    let same : base64_loop 0 (c ∷ s) ≡ v =
      cc (base64toint-loop (c ∷ s) (ne-nil_of_length (c ∷ s) (omega arith))) in
    rw same at (write_read (c ∷ s) d fits)
