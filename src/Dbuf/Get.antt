-- ===== src/Dbuf/Get.antt =====
-- ircd/dbuf.c: `dbuf_get` moves bytes from the front of the queue to the caller.
use mathlib.Core.List.{append-nil}
use irch.Base.{
  Bool-cases, List, Option-cases, [], ap, arith, drop, drop-append, inl, inr, length, min, none,
  refl, some, suc, sym, take, take-append_split, zero, ℕ, ◌++◌, ◌+◌, ◌-◌, ◌<◌, ◌==◌, ◌∙◌, ◌∷◌, ◌≡◌,
  ◌≤◌,
}
use irch.Dbuf.{Buffer, Dbuf, Pool, dbuf_map, dbuf_delete, dbuf_get}
use irch.Dbuf.Queue.{bytes_of, contents, AllFit, IsValid}
use irch.Dbuf.Remove.{dbuf_delete-contents}

take_add : (a b : ℕ) (s : List ℕ) → take a s ++ take b (drop a s) ≡ take (a + b) s
take_add zero b [] = let e : 0 + b ≡ b = omega arith in rw e
take_add zero b (c ∷ s) = let e : 0 + b ≡ b = omega arith in rw e
take_add (suc a) zero [] = let e : suc a + 0 ≡ suc a = omega arith in rw e
take_add (suc a) (suc b) [] = let e : suc a + suc b ≡ suc (a + suc b) = omega arith in rw e
take_add (suc a) b (c ∷ s) =
    let e : suc a + b ≡ suc (a + b) = omega arith in rw e (ap (λ t. c ∷ t) (take_add a b s))

drop_add : (a b : ℕ) (s : List ℕ) → drop b (drop a s) ≡ drop (a + b) s
drop_add zero b [] = let e : 0 + b ≡ b = omega arith in rw e
drop_add zero b (c ∷ s) = let e : 0 + b ≡ b = omega arith in rw e
drop_add (suc a) zero [] = let e : suc a + 0 ≡ suc a = omega arith in rw e
drop_add (suc a) (suc b) [] = let e : suc a + suc b ≡ suc (a + suc b) = omega arith in rw e
drop_add (suc a) b (c ∷ s) = let e : suc a + b ≡ suc (a + b) = omega arith in rw e (drop_add a b s)

-- The bytes read and the queue left are the two parts of what the queue held.
pub record IsRead (dyn : Dbuf) (n : ℕ) (dyn' : Dbuf) (moved : List ℕ) : Type 0 where
  pub read : moved ≡ take n (contents dyn)
  pub left : contents dyn' ≡ drop n (contents dyn)
  pub valid : IsValid dyn'

take_zero : (s : List ℕ) → take 0 s ≡ []
take_zero [] = refl
take_zero (c ∷ s) = refl

drop_zero : (s : List ℕ) → drop 0 s ≡ s
drop_zero [] = refl
drop_zero (c ∷ s) = refl

none-IsRead : (dyn : Dbuf) (n : ℕ) → IsValid dyn → n ≡ 0 → IsRead dyn n dyn []
none-IsRead dyn n v e = rw e (record {
  read = sym (take_zero (contents dyn));
  left = sym (drop_zero (contents dyn));
  valid = v;
})

-- The first block is not empty, and the queue starts with it.
block_record :
    (n : ℕ) (bs : List Buffer) (b : List ℕ)
    → AllFit bs
    → dbuf_map (record { length = n; chain = bs }) ≡ some b
    → (0 < length b) × (bytes_of bs ≡ b ++ drop (length b) (bytes_of bs))
unfolding dbuf_map bytes_of
block_record n [] b h e = cc
block_record n (x ∷ bs) b (h0, h1, h2) e = elim (Bool-cases (n == 0)) [
  | inl z ↦ absurd (ground arith)
  | inr z ↦
      let same : x.bytes ≡ b = ground arith in
      rw (sym same) (h0, rw (drop-append x.bytes (bytes_of bs) (length x.bytes) refl) refl)
]

none_record :
    (n : ℕ) (bs : List Buffer)
    → n ≡ length (bytes_of bs)
    → dbuf_map (record { length = n; chain = bs }) ≡ none
    → n ≡ 0
unfolding dbuf_map bytes_of
none_record n [] h e = h
none_record n (x ∷ bs) h e = ground arith

all_taken : (n : ℕ) (s : List ℕ) → length s ≡ 0 → (take n s ≡ []) × (drop n s ≡ s)
all_taken zero [] e = (refl, refl)
all_taken (suc n) [] e = (refl, refl)
all_taken n (c ∷ s) e = absurd (omega arith)

take_prefix : (a : ℕ) (b t : List ℕ) → a ≤ length b → take a (b ++ t) ≡ take a b
take_prefix a b t le =
    let none : a - length b ≡ 0 = omega arith in
    take-append_split a b t ∙ rw (none, take_zero t) (append-nil (take a b))

read_parts :
    (b s : List ℕ) (n : ℕ)
    → s ≡ b ++ drop (length b) s
    → take n s
      ≡ take (min (length b) n) b ++ take (n - min (length b) n) (drop (min (length b) n) s)
read_parts b s n whole =
    let a = min (length b) n in
    let sum : a + (n - a) ≡ n = omega arith in
    let prefix : take a s ≡ take a b =
      ap (λ t. take a t) whole ∙ take_prefix a b (drop (length b) s) (omega arith) in
    sym (rw (sym prefix) (take_add a (n - a) s ∙ rw sum refl))

-- On a well-formed queue and with `n` rounds or more, `dbuf_get` returns the first `n` bytes, or
-- all of them, and leaves the rest in a well-formed queue.
pub dbuf_get-contents :
    (fuel : ℕ) (pool : Pool) (dyn : Dbuf) (n : ℕ)
    → IsValid dyn
    → n ≤ fuel
    → IsRead dyn n (dbuf_get fuel pool dyn n).1 (dbuf_get fuel pool dyn n).2
unfolding dbuf_get contents
dbuf_get-contents zero pool dyn n v h = none-IsRead dyn n v (omega arith)
dbuf_get-contents (suc fuel) pool dyn n v h = elim (Option-cases (dbuf_map dyn)) [
  | inl e ↦
      let c = v.counted in
      let z = none_record dyn.length dyn.chain c e in
      let (t, d) = all_taken n (contents dyn) (omega arith) in
      rw (e, dbuf_get) (record { read = sym t; left = sym d; valid = v })
  | inr (b, e) ↦
      let (more, whole) = block_record dyn.length dyn.chain b v.fit e in
      elim (Bool-cases (n == 0)) [
        | inl z ↦ rw (e, dbuf_get, z) (none-IsRead dyn n v (ground arith))
        | inr z ↦
            let (left, valid) = dbuf_delete-contents pool dyn (min (length b) n) v in
            let sum : min (length b) n + (n - min (length b) n) ≡ n = omega arith in
            let r =
              dbuf_get-contents fuel (dbuf_delete pool dyn (min (length b) n)).0
                (dbuf_delete pool dyn (min (length b) n)).1 (n - min (length b) n) valid
                (ground arith) in
            rw (e, dbuf_get, z)
              (record {
                read =
                    ap (λ s. take (min (length b) n) b ++ s)
                      (r.read ∙ ap (λ s. take (n - min (length b) n) s) left)
                    ∙ sym (read_parts b (contents dyn) n whole);
                left =
                    r.left
                    ∙ ap (λ s. drop (n - min (length b) n) s) left
                    ∙ drop_add (min (length b) n) (n - min (length b) n) (contents dyn)
                    ∙ rw sum refl;
                valid = r.valid;
              })
      ]
]
