-- ===== src/Hash/Seek.antt =====
-- ircd/hash.c: what a search answers, and what every history of calls leaves in a table.
use irch.Base.{
  Bool, Bool-cases, List, Option, Option-cases, [], arith, contains, false, inl, inr, none, some,
  true, ℕ, ◌&&◌, ◌∷◌, ◌≡◌,
}
use irch.Crule.{same_text}
use irch.Hash.{Table, first, seek, strhash}
use irch.Hash.Content.{Holds, front-Holds, strhash-same_text}

-- The pointers that a search may answer.
unfoldable pub is_named : (ℕ → List ℕ) → (ℕ → Bool) → List ℕ → ℕ → Bool
is_named name wanted text p = wanted p && same_text text (name p)

-- The answer is one of the pointers held that pass the test, and is null only if there is none.
abbrev pub Answers : (ℕ → Bool) → (ℕ → Bool) → Option ℕ → Type 0
Answers held test none = (p : ℕ) → held p ≡ true → test p ≡ false
Answers held test (some p) = (held p ≡ true) × (test p ≡ true)

pub first-some :
    (test : ℕ → Bool) (ps : List ℕ) (p : ℕ)
    → first test ps ≡ some p
    → (contains p ps && test p) ≡ true
unfolding first contains
first-some test [] p h = cc
first-some test (q ∷ ps) p h = ground (arith, first-some test ps p)

pub first-none :
    (test : ℕ → Bool) (ps : List ℕ) (p : ℕ)
    → first test ps ≡ none
    → contains p ps ≡ true
    → test p ≡ false
unfolding first contains
first-none test [] p h c = cc
first-none test (q ∷ ps) p h c = ground (arith, first-none test ps p)

module _ {crc32hash : ℕ → ℕ} {name : ℕ → List ℕ} {held : ℕ → Bool} {t : Table} where
  -- In a table that holds `held`, a search for a name answers rightly, upper and lower case being the
  -- same, and the table goes on to hold `held`.
  pub seek-Answers :
      (wanted : ℕ → Bool) (text : List ℕ)
      → Holds crc32hash name held t
      → Holds crc32hash name held (seek crc32hash name wanted t text).0
        × Answers held (is_named name wanted text) (seek crc32hash name wanted t text).1
  unfolding seek is_named
  seek-Answers wanted text h =
      let k : ℕ = strhash crc32hash text in
      let test = λ (p : ℕ). wanted p && same_text text (name p) in
      elim (Option-cases (first test (t k))) [
        | inl e ↦
            rw (e, seek)
              (
                h,
                λ p holds. elim (Bool-cases (test p)) [
                  | inr no_match ↦ no_match
                  | inl m ↦
                      let s : strhash crc32hash text ≡ strhash crc32hash (name p) =
                        strhash-same_text crc32hash text (name p) (ground arith) in
                      let at : contains p (t k) ≡ true = ground (arith, h.chains k p) in
                      first-none test (t k) p e at
                ],
              )
        | inr (p, e) ↦
            let f : (contains p (t k) && test p) ≡ true = first-some test (t k) p e in
            rw (e, seek)
              (front-Holds p k h (ground arith), (ground (arith, h.chains k p), ground arith))
      ]
