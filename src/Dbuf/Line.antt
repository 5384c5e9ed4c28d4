-- ===== src/Dbuf/Line.antt =====
-- ircd/dbuf.c: `dbuf_getmsg` takes a line from the front of the queue.
use mathlib.Core.Option
use irch.Base.{
  Bool-cases, List, Option, Option-cases, [], ap, arith, dec_lt, drop, false, if◌then◌else◌, inl,
  inr, length, length-append, length-take, ltb, lt→ltb, min, none, refl, some, suc, sym, take,
  take-append_split, take_ge, true, zero, ℕ, ◌++◌, ◌-◌, ◌<◌, ◌==◌, ◌∙◌, ◌∷◌, ◌≡◌, ◌≤◌,
}
use irch.Chattr.{is_eol}
use irch.Dbuf.{
  Buffer, Dbuf, Pool, dbuf_delete, past_eols, dbuf_flush, line_of, copy_line, dbuf_getmsg,
}
use irch.Dbuf.Queue.{bytes_of, contents, IsValid}
use irch.Dbuf.Remove.{dbuf_delete-contents}
use irch.Dbuf.Flush.{dbuf_flush-contents}

-- The line that ends inside `s`.
unfoldable pub line_in : List ℕ → Option (List ℕ)
line_in s = if ltb (length (line_of s)) (length s) then some (line_of s) else none

-- The same operation on a plain sequence of bytes: what is left, and the line.
unfoldable pub read_line : List ℕ → ℕ → List ℕ × Option (List ℕ)
read_line s n =
    let c = past_eols s in
    elim (line_in (take n c)) [
      | none ↦ (c, none)
      | some line ↦ (past_eols (drop (length line) c), some line)
    ]

line_le : (s : List ℕ) → length (line_of s) ≤ length s
unfolding line_of
line_le [] = omega arith
line_le (c ∷ s) = elim (Bool-cases (is_eol c)) [
  | inl e ↦ rw e (omega arith)
  | inr e ↦ rw e (omega (arith, line_le s))
]

-- A line that ends inside `w` does not depend on what follows.
line_ends : (w t : List ℕ) → length (line_of w) < length w → line_of (w ++ t) ≡ line_of w
unfolding line_of
line_ends [] t h = absurd (omega arith)
line_ends (c ∷ w) t h = elim (Bool-cases (is_eol c)) [
  | inl e ↦ rw e refl
  | inr e ↦
      let h' : suc (length (line_of w)) < suc (length w) = rw e at h in
      rw e (ap (λ s. c ∷ s) (line_ends w t (omega arith)))
]

line_goes_on :
    (w t : List ℕ)
    → length (line_of w) ≡ length w
    → (line_of w ≡ w) × (line_of (w ++ t) ≡ w ++ line_of t)
unfolding line_of
line_goes_on [] t h = (refl, refl)
line_goes_on (c ∷ w) t h = elim (Bool-cases (is_eol c)) [
  | inl e ↦ let h' : 0 ≡ suc (length w) = rw e at h in absurd (omega arith)
  | inr e ↦
      let h' : suc (length (line_of w)) ≡ suc (length w) = rw e at h in
      let (p, q) = line_goes_on w t (omega arith) in rw e (ap (λ s. c ∷ s) p, ap (λ s. c ∷ s) q)
]

line_in-append_ends :
    (w t : List ℕ) → length (line_of w) < length w → line_in (w ++ t) ≡ some (line_of w)
unfolding line_in
line_in-append_ends w t h =
    let e = line_ends w t h in
    let k = length-append w t in
    let lt : ltb (length (line_of w)) (length (w ++ t)) ≡ true = lt→ltb _ _ (omega arith) in
    rw (e, lt) refl

line_in-append_goes_on :
    (w t : List ℕ)
    → length (line_of w) ≡ length w
    → line_in (w ++ t) ≡ Option.map (λ more. line_of w ++ more) (line_in t)
unfolding line_in
line_in-append_goes_on w t h =
    let (p, q) = line_goes_on w t h in
    let k = length-append w t in
    let k' = length-append w (line_of t) in
    let same : ltb (length (w ++ line_of t)) (length (w ++ t))
        ≡ ltb (length (line_of t)) (length t) =
      elim (dec_lt (length (line_of t)) (length t)) [
        | yes lt ↦ rw (lt→ltb _ _ lt) (lt→ltb _ _ (omega arith))
        | no ge ↦ ground arith
      ] in
    elim (Bool-cases (ltb (length (line_of t)) (length t))) [
      | inl e ↦ rw (q, same, p, e, line_in) refl
      | inr e ↦ rw (q, same, p, e, line_in) refl
    ]

line_in_nil : line_in [] ≡ none
unfolding line_in line_of
line_in_nil = refl

line_in_zero : (s : List ℕ) → line_in (take 0 s) ≡ none
line_in_zero [] = line_in_nil
line_in_zero (c ∷ s) = line_in_nil

-- The copying loop finds the line that ends within `n` bytes, if there is one.
copy_line-line_in : (bs : List Buffer) (n : ℕ) → copy_line bs n ≡ line_in (take n (bytes_of bs))
unfolding copy_line bytes_of
copy_line-line_in [] zero = sym line_in_nil
copy_line-line_in [] (suc n) = sym line_in_nil
copy_line-line_in (b ∷ bs) n =
    let w = take n b.bytes in
    let le = line_le w in
    let split = take-append_split n b.bytes (bytes_of bs) in
    let k = length-take n b.bytes in
    elim (dec_lt (length (line_of w)) (length w)) [
      | yes lt ↦
          let pos : (n == 0) ≡ false = ground arith in
          let t : ltb (length (line_of w)) (length w) ≡ true = lt→ltb _ _ lt in
          rw (pos, t, split)
            (sym (line_in-append_ends w (take (n - length b.bytes) (bytes_of bs)) lt))
      | no ge ↦
          let same : n - length (line_of w) ≡ n - length b.bytes = omega arith in
          let t : ltb (length (line_of w)) (length w) ≡ false = ground arith in
          let r = copy_line-line_in bs (n - length b.bytes) in
          let onward =
            line_in-append_goes_on w (take (n - length b.bytes) (bytes_of bs)) (omega arith) in
          elim (Bool-cases (n == 0)) [
            | inl z ↦
                let none_left : n - length b.bytes ≡ 0 = ground arith in
                let gone : line_in (take (n - length b.bytes) (bytes_of bs)) ≡ none =
                  rw none_left (line_in_zero (bytes_of bs)) in
                let all : line_in (w ++ take (n - length b.bytes) (bytes_of bs)) ≡ none =
                  onward ∙ rw gone refl in
                rw (z, split) (sym all)
            | inr z ↦ rw (z, t, same, r) (sym (ap line_in split ∙ onward))
          ]
    ]

read_line-none :
    (s c : List ℕ) (n : ℕ) → c ≡ past_eols s → line_in (take n c) ≡ none → read_line s n ≡ (c, none)
unfolding read_line
read_line-none s c n e h = rw (sym e, read_line, h) (rw e refl)

read_line-some :
    (s c : List ℕ) (n : ℕ) (line : List ℕ)
    → c ≡ past_eols s
    → line_in (take n c) ≡ some line
    → read_line s n ≡ (past_eols (drop (length line) c), some line)
unfolding read_line
read_line-some s c n line e h = rw (sym e, read_line, h) (rw e refl)

take-min : (n : ℕ) (s : List ℕ) → take (min n (length s)) s ≡ take n s
take-min n s = elim (dec_lt n (length s)) [
  | yes lt ↦ let e : min n (length s) ≡ n = omega arith in rw e refl
  | no ge ↦
      let e : min n (length s) ≡ length s = omega arith in
      rw (e, take_ge n s (omega arith), take_ge (length s) s (omega arith)) refl
]

-- What the loop finds in a valid queue.
found_in :
    (dyn : Dbuf) (n : ℕ)
    → IsValid dyn
    → copy_line dyn.chain (min n dyn.length) ≡ line_in (take n (contents dyn))
unfolding contents
found_in dyn n v =
    let c = v.counted in
    copy_line-line_in dyn.chain (min n dyn.length) ∙ rw c (ap line_in (take-min n (contents dyn)))

empty_list : (s : List ℕ) → length s ≡ 0 → s ≡ []
empty_list [] e = refl
empty_list (c ∷ s) e = absurd (omega arith)

none_in_empty :
    (dyn : Dbuf) (n : ℕ)
    → IsValid dyn
    → (dyn.length == 0) ≡ true
    → line_in (take n (contents dyn)) ≡ none
none_in_empty dyn n v z =
    let c = v.counted in
    let short = length-take n (contents dyn) in
    let e : take n (contents dyn) ≡ [] = empty_list (take n (contents dyn)) (ground arith) in
    rw e line_in_nil

-- On a well-formed queue, `dbuf_getmsg` skips line terminators and takes the line that ends within
-- the first `n` bytes, with the line terminators after it; if there is none it keeps the bytes. The
-- queue is well-formed again.
pub dbuf_getmsg-read_line :
    (pool : Pool) (dyn : Dbuf) (n : ℕ)
    → IsValid dyn
    → ((contents (dbuf_getmsg pool dyn n).1, (dbuf_getmsg pool dyn n).2)
        ≡ read_line (contents dyn) n)
      × IsValid (dbuf_getmsg pool dyn n).1
unfolding dbuf_getmsg
dbuf_getmsg-read_line pool dyn n v =
    let (flushed, valid1) = dbuf_flush-contents pool dyn v in
    let dyn1 = (dbuf_flush pool dyn).1 in
    let found = found_in dyn1 n valid1 in
    elim (Option-cases (line_in (take n (contents dyn1)))) [
      | inl e ↦
          let spec = read_line-none (contents dyn) (contents dyn1) n flushed e in
          elim (Bool-cases (dyn1.length == 0)) [
            | inl z ↦ rw (spec, found ∙ e, dbuf_getmsg, z) (refl, valid1)
            | inr z ↦ rw (spec, found ∙ e, dbuf_getmsg, z) (refl, valid1)
          ]
      | inr (line, e) ↦
          let spec = read_line-some (contents dyn) (contents dyn1) n line flushed e in
          elim (Bool-cases (dyn1.length == 0)) [
            | inl z ↦ let gone = none_in_empty dyn1 n valid1 z in absurd cc
            | inr z ↦
                let (deleted, valid2) =
                  dbuf_delete-contents (dbuf_flush pool dyn).0 dyn1 (length line) valid1 in
                let dyn2 = (dbuf_delete (dbuf_flush pool dyn).0 dyn1 (length line)) in
                let (flushed3, valid3) = dbuf_flush-contents dyn2.0 dyn2.1 valid2 in
                rw (spec, found ∙ e, dbuf_getmsg, z) (rw (flushed3, deleted) refl, valid3)
          ]
    ]
