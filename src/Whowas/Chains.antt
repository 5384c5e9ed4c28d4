-- ===== src/Whowas/Chains.antt =====
-- ircd/whowas.c: the hash chains when a structure is unlinked or renamed.
use irch.Base.{
  Bool-cases, List, Option-cases, [], ap, arith, false, inl, inr, length, none, refl, some, true,
  update, update_ne, ℕ, ◌+◌, ◌<◌, ◌==◌, ◌∷◌, ◌≡◌, ◌≢◌,
}
use irch.Whowas.{Whowas, is_head, unlink, ww_tail}
use irch.Whowas.Index.{Every, Distinct, with_hash}

module _ (i : ℕ) where
  pub Every-unlink : (P : ℕ → Type 0) (is : List ℕ) → Every P is → Every P (unlink i is)
  unfolding unlink
  Every-unlink P [] h = h
  Every-unlink P (j ∷ js) (h, hs) = elim (Bool-cases (i == j)) [
    | inl e ↦ rw e (Every-unlink P js hs)
    | inr e ↦ rw e (h, Every-unlink P js hs)
  ]

  pub Distinct-unlink : (is : List ℕ) → Distinct is → Distinct (unlink i is)
  unfolding unlink
  Distinct-unlink [] h = h
  Distinct-unlink (j ∷ js) (h, hs) = elim (Bool-cases (i == j)) [
    | inl e ↦ rw e (Distinct-unlink js hs)
    | inr e ↦ rw e (Every-unlink (λ k. k ≢ j) js h, Distinct-unlink js hs)
  ]

  pub Every-gone : (is : List ℕ) → Every (λ j. j ≢ i) (unlink i is)
  unfolding unlink
  Every-gone [] = tt
  Every-gone (j ∷ js) = elim (Bool-cases (i == j)) [
    | inl e ↦ rw e (Every-gone js)
    | inr e ↦ rw e ((λ same. ground arith), Every-gone js)
  ]

  unlink_absent : (is : List ℕ) → Every (λ j. j ≢ i) is → unlink i is ≡ is
  unfolding unlink
  unlink_absent [] h = refl
  unlink_absent (j ∷ js) (h, hs) =
      let e : (i == j) ≡ false = ground arith in rw e (ap (λ ks. j ∷ ks) (unlink_absent js hs))

module _ (entries : ℕ → Whowas) (v i : ℕ) where
  pub with_hash-unlink :
      (is : List ℕ) → with_hash entries v (unlink i is) ≡ unlink i (with_hash entries v is)
  unfolding with_hash unlink
  with_hash-unlink [] = refl
  with_hash-unlink (j ∷ js) =
      let r = with_hash-unlink js in
      elim (Bool-cases ((entries j).hashv == v)) [
        | inl t ↦ elim (Bool-cases (i == j)) [
          | inl e ↦ rw (t, e) r
          | inr e ↦ rw (t, e, t) (ap (λ ks. j ∷ ks) r)
        ]
        | inr t ↦ elim (Bool-cases (i == j)) [ inl e ↦ rw (t, e) r | inr e ↦ rw (t, e, t) r ]
      ]

  -- A pointer with another hash value is not in the chain.
  pub unlink-with_hash :
      (is : List ℕ)
      → ((entries i).hashv == v) ≡ false
      → unlink i (with_hash entries v is) ≡ with_hash entries v is
  unfolding with_hash unlink
  unlink-with_hash [] h = refl
  unlink-with_hash (j ∷ js) h =
      let r = unlink-with_hash js h in
      elim (Bool-cases ((entries j).hashv == v)) [
        | inr t ↦ rw t r
        | inl t ↦ elim (Bool-cases (i == j)) [
          | inl e ↦
              let same : i ≡ j = ground arith in
              let h' : ((entries j).hashv == v) ≡ false = rw same at h in absurd cc
          | inr e ↦ rw (t, e) (ap (λ ks. j ∷ ks) r)
        ]
      ]

  pub with_hash-update :
      (w : Whowas) (is : List ℕ)
      → Every (λ j. j ≢ i) is
      → with_hash (update entries i w) v is ≡ with_hash entries v is
  unfolding with_hash
  with_hash-update w [] h = refl
  with_hash-update w (j ∷ js) (h, hs) =
      rw (update_ne entries i w j h, with_hash-update w js hs) refl

pub Every-map : (P Q : ℕ → Type 0) (is : List ℕ) → ((i : ℕ) → P i → Q i) → Every P is → Every Q is
Every-map P Q [] f h = tt
Every-map P Q (i ∷ is) f (h, hs) = (f i h, Every-map P Q is f hs)

pub tail_none : (is : List ℕ) → ww_tail is ≡ none → is ≡ []
unfolding ww_tail
tail_none [] h = refl
tail_none (j ∷ js) h = elim (Option-cases (ww_tail js)) [
  | inl e ↦ absurd (ground arith)
  | inr (k, e) ↦ absurd (ground arith)
]

pub tail_in : (P : ℕ → Type 0) (is : List ℕ) (i : ℕ) → ww_tail is ≡ some i → Every P is → P i
unfolding ww_tail
tail_in P [] i h k = cc
tail_in P (j ∷ js) i h (k, ks) = elim (Option-cases (ww_tail js)) [
  | inl e ↦ let same : j ≡ i = ground (arith, (rw e at h)) in rw same at k
  | inr (l, e) ↦ let same : l ≡ i = ground (arith, (rw e at h)) in tail_in P js i (rw same at e) ks
]

pub length-unlink :
    (is : List ℕ) (i : ℕ) → ww_tail is ≡ some i → Distinct is → length (unlink i is) + 1 ≡ length is
unfolding ww_tail unlink
length-unlink [] i h d = cc
length-unlink (j ∷ js) i h (d, ds) = elim (Option-cases (ww_tail js)) [
  | inl e ↦
      let same : j ≡ i = ground (arith, (rw e at h)) in
      let nil = tail_none js e in
      let t : (i == j) ≡ true = ground arith in rw (t, nil) (omega arith)
  | inr (l, e) ↦
      let same : l ≡ i = ground (arith, (rw e at h)) in
      let last : ww_tail js ≡ some i = rw same at e in
      let ne = tail_in (λ k. k ≢ j) js i last d in
      let t : (i == j) ≡ false = ground arith in rw t (omega (arith, length-unlink js i last ds))
]

-- In a list of two pointers or more that differ, the last is not the first.
pub tail_not_head :
    (is : List ℕ) (i : ℕ) → ww_tail is ≡ some i → Distinct is → 1 < length is → is_head i is ≡ false
unfolding ww_tail is_head
tail_not_head [] i h d lt = cc
tail_not_head (j ∷ js) i h (d, ds) lt = elim (Option-cases (ww_tail js)) [
  | inl e ↦ let nil : length js ≡ 0 = ap length (tail_none js e) in absurd (omega arith)
  | inr (l, e) ↦
      let same : l ≡ i = ground (arith, (rw e at h)) in
      let last : ww_tail js ≡ some i = rw same at e in
      let ne = tail_in (λ k. k ≢ j) js i last d in ground arith
]
