-- ===== src/Dbuf/Flush.antt =====
-- ircd/dbuf.c: `dbuf_flush` removes the line terminators at the front of the queue.
use irch.Base.{
  Bool-cases, List, [], ap, arith, inl, inr, length, length-append, refl, sym, ℕ, ◌++◌, ◌+◌, ◌-◌,
  ◌<◌, ◌==◌, ◌∙◌, ◌∷◌, ◌≡◌, ◌≤◌,
}
use irch.Chattr.{is_eol}
use irch.Dbuf.{Buffer, Dbuf, Pool, dbuf_free, eols, past_eols, flush_chain, dbuf_flush}
use irch.Dbuf.Queue.{bytes_of, contents, AllFit, IsValid}

eols_length : (s : List ℕ) → length (eols s) + length (past_eols s) ≡ length s
unfolding eols past_eols
eols_length [] = refl
eols_length (c ∷ s) = elim (Bool-cases (is_eol c)) [
  | inl e ↦ rw e (omega (arith, eols_length s))
  | inr e ↦ rw e (omega arith)
]

past_none : (s t : List ℕ) → length (past_eols s) ≡ 0 → past_eols (s ++ t) ≡ past_eols t
unfolding past_eols
past_none [] t h = refl
past_none (c ∷ s) t h = elim (Bool-cases (is_eol c)) [
  | inl e ↦ rw e (past_none s t (rw e at h))
  | inr e ↦ absurd (ground arith)
]

past_some : (s t : List ℕ) → 0 < length (past_eols s) → past_eols (s ++ t) ≡ past_eols s ++ t
unfolding past_eols
past_some [] t h = absurd (omega arith)
past_some (c ∷ s) t h = elim (Bool-cases (is_eol c)) [
  | inl e ↦ rw e (past_some s t (rw e at h))
  | inr e ↦ rw e refl
]

-- The queue holds `s`.
record IsFlushed (s : List ℕ) (dyn : Dbuf) : Type 0 where
  rest : bytes_of dyn.chain ≡ s
  counted : dyn.length ≡ length s
  fit : AllFit dyn.chain

past_nil : past_eols [] ≡ []
unfolding past_eols
past_nil = refl

flush_chain_rest :
    (pool : Pool) (len : ℕ) (bs : List Buffer)
    → AllFit bs
    → len ≡ length (bytes_of bs)
    → IsFlushed (past_eols (bytes_of bs)) (flush_chain pool len bs).1
unfolding flush_chain bytes_of
flush_chain_rest pool len [] h e = record {
  rest = sym past_nil;
  counted = sym (ap (λ (s : List ℕ). length s) past_nil);
  fit = tt;
}
flush_chain_rest pool len (b ∷ bs) (h0, h1, h2) e =
    let k = eols_length b.bytes in
    let all = length-append b.bytes (bytes_of bs) in
    elim (Bool-cases (length (past_eols b.bytes) == 0)) [
      | inl z ↦
          let none : length (past_eols b.bytes) ≡ 0 = ground arith in
          let r =
            flush_chain_rest (dbuf_free pool) (len - length (eols b.bytes)) bs h2 (omega arith) in
          rw (z, past_none b.bytes (bytes_of bs) none)
            (record { rest = r.rest; counted = r.counted; fit = r.fit })
      | inr z ↦
          let more : 0 < length (past_eols b.bytes) = ground arith in
          let split = length-append (past_eols b.bytes) (bytes_of bs) in
          rw (z, past_some b.bytes (bytes_of bs) more)
            (record { rest = refl; counted = omega arith; fit = (more, omega arith, h2) })
    ]

past_le : (s : List ℕ) → length (past_eols s) ≤ length s
past_le s = omega (arith, eols_length s)

flush_record :
    (pool : Pool) (n : ℕ) (bs : List Buffer)
    → AllFit bs
    → n ≡ length (bytes_of bs)
    → IsFlushed (past_eols (bytes_of bs)) (dbuf_flush pool (record { length = n; chain = bs })).1
unfolding dbuf_flush bytes_of
flush_record pool n [] h e = rw past_nil (record { rest = refl; counted = e; fit = tt })
flush_record pool n (b ∷ bs) h e = flush_chain_rest pool n (b ∷ bs) h e

-- On a well-formed queue, `dbuf_flush` drops the line terminators at the front and nothing else;
-- the queue is well-formed again.
pub dbuf_flush-contents :
    (pool : Pool) (dyn : Dbuf)
    → IsValid dyn
    → (contents (dbuf_flush pool dyn).1 ≡ past_eols (contents dyn))
      × IsValid (dbuf_flush pool dyn).1
unfolding contents
dbuf_flush-contents pool dyn v =
    let c = v.counted in
    let w = v.word in
    let r = flush_record pool dyn.length dyn.chain v.fit c in
    let less = past_le (bytes_of dyn.chain) in
    let k = r.counted in
    (
      r.rest,
      record {
        counted = k ∙ sym (ap (λ (s : List ℕ). length s) r.rest);
        fit = r.fit;
        word = omega arith;
      },
    )
