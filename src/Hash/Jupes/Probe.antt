-- ===== src/Hash/Jupes/Probe.antt =====
-- ircd/hash.c: the walk through the table of nick jupes.
use irch.Base.{
  Bool, Bool-cases, List, List-cases, [], ap, arith, false, inl, inr, refl, some, suc, true, update,
  zero, ℕ, ◌%◌, ◌+◌, ◌==◌, ◌<◌, ◌∷◌, ◌≡◌, ◌∙◌, sym, Bool-iff, update_self, Nat-cases,
}
use mathlib.Core.Path.{subst}
use irch.Crule.{same_text}
use irch.Crule.Same.{same_text-sym, same_text_refl, same_text_trans}
use irch.Hash.Jupes.{jupehashsize, probe}

-- What an end of the walk is: a slot with the nick, or an empty one.
abbrev pub IsEnd : (ℕ → List ℕ) → List ℕ → Bool × ℕ → Type 0
IsEnd slots nick (true, pos) = (pos < jupehashsize) × (same_text nick (slots pos) ≡ true)
IsEnd slots nick (false, pos) = (pos < jupehashsize) × (slots pos ≡ [])

module _ (slots : ℕ → List ℕ) (fuel : ℕ) (nick : List ℕ) (pos : ℕ) where
  pub probe-empty :
      slots (pos % jupehashsize) ≡ []
      → probe slots (suc fuel) nick pos ≡ some (false, pos % jupehashsize)
  unfolding probe
  probe-empty e = rw (probe, e) refl

  pub probe-here :
      (c : ℕ) (n : List ℕ)
      → slots (pos % jupehashsize) ≡ c ∷ n
      → same_text nick (c ∷ n) ≡ true
      → probe slots (suc fuel) nick pos ≡ some (true, pos % jupehashsize)
  unfolding probe
  probe-here c n e m = rw (probe, e, m) refl

  pub probe-onward :
      (c : ℕ) (n : List ℕ)
      → slots (pos % jupehashsize) ≡ c ∷ n
      → same_text nick (c ∷ n) ≡ false
      → probe slots (suc fuel) nick pos ≡ probe slots fuel nick (pos % jupehashsize + 1)
  unfolding probe
  probe-onward c n e m = rw (probe, e, m) refl

-- A walk with fuel to the next empty slot ends.
pub probe-ends :
    (slots : ℕ → List ℕ) (fuel : ℕ) (nick : List ℕ) (pos d : ℕ)
    → slots ((pos + d) % jupehashsize) ≡ []
    → d < fuel
    → (r : Bool × ℕ) × (probe slots fuel nick pos ≡ some r)
probe-ends slots zero nick pos d free h = absurd (omega arith)
probe-ends slots (suc fuel) nick pos d free h = elim (List-cases (slots (pos % jupehashsize))) [
  | inl e ↦ ((false, pos % jupehashsize), probe-empty slots fuel nick pos e)
  | inr (c, n, e) ↦ elim (Bool-cases (same_text nick (c ∷ n))) [
    | inl m ↦ ((true, pos % jupehashsize), probe-here slots fuel nick pos c n e m)
    | inr m ↦ elim (Nat-cases d) [
      | inl z ↦ absurd (
          let same : (pos + d) % jupehashsize ≡ pos % jupehashsize = omega arith in
          let no : c ∷ n ≡ [] = sym e ∙ ap slots (sym same) ∙ free in cc)
      | inr (d', z) ↦
          let onward : (pos + d) % jupehashsize ≡ (pos % jupehashsize + 1 + d') % jupehashsize =
            omega arith in
          let (r, ends) =
            probe-ends slots fuel nick (pos % jupehashsize + 1) d' (ap slots (sym onward) ∙ free)
              (omega arith) in
          (r, probe-onward slots fuel nick pos c n e m ∙ ends)
    ]
  ]
]

pub probe-IsEnd :
    (slots : ℕ → List ℕ) (fuel : ℕ) (nick : List ℕ) (pos : ℕ) (r : Bool × ℕ)
    → probe slots fuel nick pos ≡ some r
    → IsEnd slots nick r
unfolding probe
probe-IsEnd slots zero nick pos r h = cc
probe-IsEnd slots (suc fuel) nick pos r h = elim (List-cases (slots (pos % jupehashsize))) [
  | inl e ↦
      let same : (false, pos % jupehashsize) ≡ r =
        let q = sym (probe-empty slots fuel nick pos e) ∙ h in cc in
      subst (IsEnd slots nick) same (omega arith, e)
  | inr (c, n, e) ↦ elim (Bool-cases (same_text nick (c ∷ n))) [
    | inl m ↦
        let same : (true, pos % jupehashsize) ≡ r =
          let q = sym (probe-here slots fuel nick pos c n e m) ∙ h in cc in
        subst (IsEnd slots nick) same (omega arith, rw e m)
    | inr m ↦
        probe-IsEnd slots fuel nick (pos % jupehashsize + 1) r
          (sym (probe-onward slots fuel nick pos c n e m) ∙ h)
  ]
]

module _ (slots : ℕ → List ℕ) (p : ℕ) (v : List ℕ) (free : slots p ≡ []) where
  -- The slots that a walk has passed do not change when an empty one is filled.
  kept : (q c : ℕ) (n : List ℕ) → slots q ≡ c ∷ n → update slots p v q ≡ c ∷ n
  kept q c n e = elim (Bool-cases (q == p)) [
    | inr apart ↦ rw apart e
    | inl same ↦
        absurd
          (let eq : q ≡ p = ground arith in let no : c ∷ n ≡ [] = sym e ∙ ap slots eq ∙ free in cc)
  ]

  -- A walk that finds the nick is not disturbed.
  pub probe-update :
      (fuel : ℕ) (nick : List ℕ) (pos q : ℕ)
      → probe slots fuel nick pos ≡ some (true, q)
      → probe (update slots p v) fuel nick pos ≡ some (true, q)
  unfolding probe
  probe-update zero nick pos q h = cc
  probe-update (suc fuel) nick pos q h = elim (List-cases (slots (pos % jupehashsize))) [
    | inl e ↦ absurd (let no = sym (probe-empty slots fuel nick pos e) ∙ h in cc)
    | inr (c, n, e) ↦
        let e' = kept (pos % jupehashsize) c n e in
        elim (Bool-cases (same_text nick (c ∷ n))) [
          | inl m ↦
              probe-here (update slots p v) fuel nick pos c n e' m
              ∙ sym (probe-here slots fuel nick pos c n e m)
              ∙ h
          | inr m ↦
              probe-onward (update slots p v) fuel nick pos c n e' m
              ∙ probe-update fuel nick (pos % jupehashsize + 1) q
                  (sym (probe-onward slots fuel nick pos c n e m) ∙ h)
        ]
  ]

-- A nick that was not found is found once it stands in the slot where the walk ended.
pub probe-update_self :
    (slots : ℕ → List ℕ) (q c : ℕ) (n : List ℕ)
    → slots q ≡ []
    → (fuel pos : ℕ) → probe slots fuel (c ∷ n) pos ≡ some (false, q)
    → probe (update slots q (c ∷ n)) fuel (c ∷ n) pos ≡ some (true, q)
unfolding probe
probe-update_self slots q c n free zero pos h = cc
probe-update_self slots q c n free (suc fuel) pos h =
    elim (List-cases (slots (pos % jupehashsize))) [
      | inl e ↦
          let ends = sym (probe-empty slots fuel (c ∷ n) pos e) ∙ h in
          let same : pos % jupehashsize ≡ q = cc in
          let filled : update slots q (c ∷ n) (pos % jupehashsize) ≡ c ∷ n =
            rw same (update_self slots q (c ∷ n)) in
          probe-here (update slots q (c ∷ n)) fuel (c ∷ n) pos c n filled (same_text_refl (c ∷ n))
          ∙ ap (λ i. some (true, i)) same
      | inr (d, t, e) ↦
          let e' = kept slots q (c ∷ n) free (pos % jupehashsize) d t e in
          elim (Bool-cases (same_text (c ∷ n) (d ∷ t))) [
            | inl m ↦ absurd (let no = sym (probe-here slots fuel (c ∷ n) pos d t e m) ∙ h in cc)
            | inr m ↦
                probe-onward (update slots q (c ∷ n)) fuel (c ∷ n) pos d t e' m
                ∙ probe-update_self slots q c n free fuel (pos % jupehashsize + 1)
                    (sym (probe-onward slots fuel (c ∷ n) pos d t e m) ∙ h)
          ]
    ]

-- Two spellings of a nick have one walk.
pub probe-same_text :
    (slots : ℕ → List ℕ) (fuel : ℕ) (a b : List ℕ) (pos : ℕ)
    → same_text a b ≡ true
    → probe slots fuel a pos ≡ probe slots fuel b pos
unfolding probe
probe-same_text slots zero a b pos h = refl
probe-same_text slots (suc fuel) a b pos h = elim (List-cases (slots (pos % jupehashsize))) [
  | inl e ↦ probe-empty slots fuel a pos e ∙ sym (probe-empty slots fuel b pos e)
  | inr (c, n, e) ↦
      let same : same_text a (c ∷ n) ≡ same_text b (c ∷ n) =
        Bool-iff (same_text a (c ∷ n)) (same_text b (c ∷ n))
          (λ m. same_text_trans b a (c ∷ n) (same_text-sym a b h) m)
          (λ m. same_text_trans a b (c ∷ n) h m) in
      elim (Bool-cases (same_text b (c ∷ n))) [
        | inl m ↦
            probe-here slots fuel a pos c n e (same ∙ m) ∙ sym (probe-here slots fuel b pos c n e m)
        | inr m ↦
            probe-onward slots fuel a pos c n e (same ∙ m)
            ∙ probe-same_text slots fuel a b (pos % jupehashsize + 1) h
            ∙ sym (probe-onward slots fuel b pos c n e m)
      ]
]
