-- ===== src/Dbuf/Remove.antt =====
-- ircd/dbuf.c: `dbuf_delete`, `dbuf_get` and `dbuf_flush` remove bytes from the front of the queue.
use irch.Base.{
  Bool-cases, List, [], ap, arith, dec_lt, drop, drop-append_split, drop_ge, false, inl, inr,
  length, length-append, length-drop, min, refl, sym, ℕ, ◌+◌, ◌-◌, ◌<◌, ◌==◌, ◌∙◌, ◌∷◌, ◌≡◌, ◌≤◌,
}
use irch.Dbuf.{dbuf_size, Buffer, Dbuf, Pool, dbuf_free, delete_chain, settle, dbuf_delete}
use irch.Dbuf.Queue.{bytes_of, contents, AllFit, IsValid}

-- What removing the first `n` bytes of a chain of `len` bytes leaves.
record IsRest (bs : List Buffer) (len n : ℕ) (dyn : Dbuf) : Type 0 where
  rest : bytes_of dyn.chain ≡ drop n (bytes_of bs)
  counted : dyn.length ≡ len - n
  fit : AllFit dyn.chain

-- The head buffer keeps some bytes.
part_left :
    (b : Buffer) (bs : List Buffer) (len n : ℕ)
    → b.offset + length b.bytes ≤ dbuf_size
    → AllFit bs
    → n < length b.bytes
    → IsRest (b ∷ bs) len n (record {
      length = len - n;
      chain = record { offset = b.offset + n; bytes = drop n b.bytes } ∷ bs;
    })
unfolding bytes_of
part_left b bs len n h1 h2 lt =
    let less = length-drop n b.bytes in
    let none : n - length b.bytes ≡ 0 = omega arith in
    record {
      rest = sym (drop-append_split n b.bytes (bytes_of bs) ∙ rw none refl);
      counted = refl;
      fit = (omega arith, omega arith, h2);
    }

-- The head buffer is used up.
whole_left :
    (b : Buffer) (bs : List Buffer) (len n : ℕ) (dyn : Dbuf)
    → length b.bytes ≤ n
    → IsRest bs (len - length b.bytes) (n - length b.bytes) dyn
    → IsRest (b ∷ bs) len n dyn
unfolding bytes_of
whole_left b bs len n dyn le r = record {
  rest = r.rest ∙ sym (drop-append_split n b.bytes (bytes_of bs) ∙ rw (drop_ge n b.bytes le) refl);
  counted = let e = r.counted in omega arith;
  fit = r.fit;
}

drop_zero : (s : List ℕ) → drop 0 s ≡ s
drop_zero [] = refl
drop_zero (c ∷ s) = refl

delete_chain-IsRest :
    (pool : Pool) (len : ℕ) (bs : List Buffer) (n : ℕ)
    → AllFit bs
    → n ≤ length (bytes_of bs)
    → length (bytes_of bs) ≤ len
    → IsRest bs len n (delete_chain pool len bs n).1
unfolding delete_chain bytes_of
delete_chain-IsRest pool len [] n h le le' =
    let e : n ≡ 0 = omega arith in rw e (record { rest = refl; counted = omega arith; fit = tt })
delete_chain-IsRest pool len (b ∷ bs) n (h0, h1, h2) le le' = elim (Bool-cases (n == 0)) [
  | inl z ↦
      let e : n ≡ 0 = ground arith in
      rw (z, e) (record { rest = refl; counted = omega arith; fit = (h0, h1, h2) })
  | inr z ↦ elim (dec_lt n (length b.bytes)) [
    | yes lt ↦
        let e : min (length b.bytes) n ≡ n = omega arith in
        let more : (length (drop n b.bytes) == 0) ≡ false = ground (arith, length-drop n b.bytes) in
        rw (z, e, more) (part_left b bs len n h1 h2 lt)
    | no ge ↦
        let e : min (length b.bytes) n ≡ length b.bytes = omega arith in
        let none : drop (length b.bytes) b.bytes ≡ [] =
          drop_ge (length b.bytes) b.bytes (omega arith) in
        let all = length-append b.bytes (bytes_of bs) in
        rw (z, e, none)
          (whole_left b bs len n _ (omega arith) (
            delete_chain-IsRest (dbuf_free pool) (len - length b.bytes) bs (n - length b.bytes) h2
              (omega arith) (omega arith)))
  ]
]

settle_record :
    (n : ℕ) (bs : List Buffer)
    → n ≡ length (bytes_of bs)
    → settle (record { length = n; chain = bs }) ≡ record { length = n; chain = bs }
unfolding settle bytes_of
settle_record n [] e = rw e
settle_record n (b ∷ bs) e = refl

settle_valid : (dyn : Dbuf) → IsValid dyn → settle dyn ≡ dyn
unfolding contents
settle_valid dyn v = settle_record dyn.length dyn.chain v.counted

drop-min : (n : ℕ) (s : List ℕ) → drop (min n (length s)) s ≡ drop n s
drop-min n s = elim (dec_lt n (length s)) [
  | yes lt ↦ let e : min n (length s) ≡ n = omega arith in rw e
  | no ge ↦
      let e : min n (length s) ≡ length s = omega arith in
      rw (e, drop_ge n s (omega arith), drop_ge (length s) s (omega arith))
]

-- On a well-formed queue, `dbuf_delete` drops the first `n` bytes, or all of them, and leaves the
-- rest in a well-formed queue.
pub dbuf_delete-contents :
    (pool : Pool) (dyn : Dbuf) (n : ℕ)
    → IsValid dyn
    → (contents (dbuf_delete pool dyn n).1 ≡ drop n (contents dyn))
      × IsValid (dbuf_delete pool dyn n).1
unfolding dbuf_delete contents
dbuf_delete-contents pool dyn n v =
    let c = v.counted in
    let w = v.word in
    let r =
      delete_chain-IsRest pool dyn.length dyn.chain (min n dyn.length) v.fit (omega arith)
        (omega arith) in
    let left = (delete_chain pool dyn.length dyn.chain (min n dyn.length)).1 in
    let same : drop (min n dyn.length) (contents dyn) ≡ drop n (contents dyn) =
      rw c (drop-min n (contents dyn)) in
    let e = r.rest in
    let k = r.counted in
    let d = length-drop (min n dyn.length) (bytes_of dyn.chain) in
    let ok : IsValid left = record {
      counted = omega (arith, ap (λ (s : List ℕ). length s) e);
      fit = r.fit;
      word = omega arith;
    } in
    rw (settle_valid left ok) (e ∙ same, ok)
