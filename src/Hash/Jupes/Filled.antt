-- ===== src/Hash/Jupes/Filled.antt =====
-- ircd/hash.c: the table of nick jupes with one nick more.
use irch.Base.{
  Bool, Bool-cases, List, List-cases, [], ap, arith, false, inl, inr, some, sym, true, update,
  update_ne, update_self, ℕ, ◌+◌, ◌==◌, ◌<◌, ◌∙◌, ◌∷◌, ◌≡◌, ◌||◌,
}
use irch.Crule.{same_text}
use irch.Hash.{strhash}
use irch.Hash.Content.{strhash-same_text}
use irch.Hash.Jupes.{Jupes, jupehashsize, jupemax, probe}
use irch.Hash.Jupes.Occupied.{occupied-update}
use irch.Hash.Jupes.Probe.{probe-IsEnd, probe-same_text, probe-update, probe-update_self}
use irch.Hash.Jupes.Valid.{IsValid, probe-held, probe-total}

-- The table with the nick `c ∷ n` in the empty slot `q`.
abbrev pub filled : Jupes → ℕ → ℕ → List ℕ → Jupes
filled s q c n = record { slots = update s.slots q (c ∷ n); count = s.count + 1 }

module _ {crc32hash : ℕ → ℕ} {s : Jupes} (v : IsValid crc32hash s) (q c : ℕ) (n : List ℕ)
    (ends : probe s.slots jupehashsize (c ∷ n) (strhash crc32hash (c ∷ n)) ≡ some (false, q)) where
  free_slot : (q < jupehashsize) × (s.slots q ≡ [])
  free_slot = probe-IsEnd s.slots jupehashsize (c ∷ n) (strhash crc32hash (c ∷ n)) (false, q) ends

  new_found :
      probe (update s.slots q (c ∷ n)) jupehashsize (c ∷ n) (strhash crc32hash (c ∷ n))
      ≡ some (true, q)
  new_found =
      probe-update_self s.slots q c n free_slot.1 jupehashsize (strhash crc32hash (c ∷ n)) ends

  pub filled-IsValid : s.count < jupemax → IsValid crc32hash (filled s q c n)
  filled-IsValid room = record {
    found = λ p d t within at. elim (Bool-cases (p == q)) [
      | inl e ↦
          let same : p ≡ q = ground arith in
          let eq : d ∷ t ≡ c ∷ n =
            sym at ∙ ap (update s.slots q (c ∷ n)) same ∙ update_self s.slots q (c ∷ n) in
          (
            q,
            ap (λ m. probe (update s.slots q (c ∷ n)) jupehashsize m (strhash crc32hash m)) eq
                ∙ new_found,
          )
      | inr e ↦
          let old : s.slots p ≡ d ∷ t = sym (update_ne s.slots q (c ∷ n) p (ground arith)) ∙ at in
          let (r, before) = v.found p d t within old in
          (
            r,
            probe-update s.slots q (c ∷ n) free_slot.1 jupehashsize (d ∷ t)
                (strhash crc32hash (d ∷ t)) r before,
          )
    ];
    counted =
        rw (v.counted) (sym (occupied-update jupehashsize s.slots q c n free_slot.0 free_slot.1));
    few = omega arith;
  }

  -- A nick that is found in the filled table was found before, or is the new one.
  not_found :
      (x : ℕ) (t : List ℕ) (r r' : ℕ)
      → probe s.slots jupehashsize (x ∷ t) (strhash crc32hash (x ∷ t)) ≡ some (false, r)
      → same_text (x ∷ t) (c ∷ n) ≡ false
      → probe (update s.slots q (c ∷ n)) jupehashsize (x ∷ t) (strhash crc32hash (x ∷ t))
        ≡ some (true, r')
      → ⊥
  not_found x t r r' before other after =
      let (within, same) =
        probe-IsEnd (update s.slots q (c ∷ n)) jupehashsize (x ∷ t) (strhash crc32hash (x ∷ t))
          (true, r') after in
      elim (Bool-cases (r' == q)) [
        | inl e ↦
            let eq : r' ≡ q = ground arith in
            let there : same_text (x ∷ t) (c ∷ n) ≡ true =
              ap (same_text (x ∷ t))
                (sym (ap (update s.slots q (c ∷ n)) eq ∙ update_self s.slots q (c ∷ n)))
              ∙ same in
            ground arith
        | inr e ↦
            let there : same_text (x ∷ t) (s.slots r') ≡ true =
              ap (same_text (x ∷ t)) (sym (update_ne s.slots q (c ∷ n) r' (ground arith))) ∙ same in
            elim (List-cases (s.slots r')) [
              | inl none_there ↦
                  let no : same_text (x ∷ t) [] ≡ true =
                    ap (same_text (x ∷ t)) (sym none_there) ∙ there in
                  unfold same_text in ground arith
              | inr (d, u, at) ↦
                  let (r2, found) =
                    probe-held v (x ∷ t) r' d u within at
                      (ap (same_text (x ∷ t)) (sym at) ∙ there) in
                  let no = sym before ∙ found in cc
            ]
      ]

  pub filled-juped :
      (x : ℕ) (t : List ℕ) (b : Bool) (r : ℕ)
      → s.count < jupemax
      → probe s.slots jupehashsize (x ∷ t) (strhash crc32hash (x ∷ t)) ≡ some (b, r)
      → (r' : ℕ) × (probe
            (update s.slots q (c ∷ n))
            jupehashsize
            (x ∷ t)
            (strhash crc32hash (x ∷ t))
          ≡ some ((same_text (x ∷ t) (c ∷ n) || b), r'))
  filled-juped x t true r room before = (
    r,
    probe-update s.slots q (c ∷ n) free_slot.1 jupehashsize (x ∷ t) (strhash crc32hash (x ∷ t)) r
          before
        ∙ ap (λ b. some (b, r)) (ground arith),
  )
  filled-juped x t false r room before = elim (Bool-cases (same_text (x ∷ t) (c ∷ n))) [
    | inl same ↦ (
      q,
      ap (probe (update s.slots q (c ∷ n)) jupehashsize (x ∷ t))
            (strhash-same_text crc32hash (x ∷ t) (c ∷ n) same)
          ∙ probe-same_text (update s.slots q (c ∷ n)) jupehashsize (x ∷ t) (c ∷ n)
              (strhash crc32hash (c ∷ n)) same
          ∙ new_found
          ∙ ap (λ b. some (b, q)) (ground arith),
    )
    | inr other ↦
        let ((b', r'), after) = probe-total (filled-IsValid room) (x ∷ t) in
        elim (Bool-cases b') [
          | inl found_it ↦
              absurd (not_found x t r r' before other (after ∙ ap (λ b. some (b, r')) found_it))
          | inr missing ↦ (r', after ∙ ap (λ b. some (b, r')) (ground arith))
        ]
  ]
