-- ===== src/Ipcheck/Address.antt =====
-- include/res.h: which addresses count as valid.
use irch.Base.{arith, false, refl, replicate, ◌↔◌, ◌≡◌}
use irch.Ipcheck.{Addr, words, is_valid}

-- Only the address of eight zero words is not valid.
pub is_valid-zero : (a : Addr) → (is_valid a ≡ false) ↔ (words a ≡ replicate 8 0)
unfolding is_valid words
is_valid-zero a = (
  λ h.
      let e0 : a.w0 ≡ 0 = ground arith in
      let e1 : a.w1 ≡ 0 = ground arith in
      let e2 : a.w2 ≡ 0 = ground arith in
      let e3 : a.w3 ≡ 0 = ground arith in
      let e4 : a.w4 ≡ 0 = ground arith in
      let e5 : a.w5 ≡ 0 = ground arith in
      let e6 : a.w6 ≡ 0 = ground arith in
      let e7 : a.w7 ≡ 0 = ground arith in rw (e0, e1, e2, e3, e4, e5, e6, e7) refl,
  λ h. ground arith,
)
