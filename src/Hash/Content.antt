-- ===== src/Hash/Content.antt =====
-- ircd/hash.c: what a table holds.
use irch.Base.{
  Bool, Bool-cases, List, NoDup, [], ap, arith, bit_and, contains, contains-erase, erase,
  erase-NoDup, false, inl, inr, not, refl, true, update, ℕ, ◌%◌, ◌&&◌, ◌==◌, ◌||◌, ◌∙◌, ◌∷◌, ◌≡◌,
}
use irch.Chattr.{to_lower}
use irch.Crule.{same_text}
use irch.Hash.{Table, add, change, hash_byte, hashsize, rem, strhash, strhash_loop}

-- The table holds the pointers of `held`, each in the chain of its name and once.
pub record Holds (crc32hash : ℕ → ℕ) (name : ℕ → List ℕ) (held : ℕ → Bool) (t : Table)
    : Type 0 where
  pub chains : (v p : ℕ) → contains p (t v) ≡ (held p && strhash crc32hash (name p) == v)
  pub once : (v : ℕ) → NoDup (t v)

unfoldable pub insert : (ℕ → Bool) → ℕ → ℕ → Bool
insert held p q = q == p || held q

unfoldable pub without : (ℕ → Bool) → ℕ → ℕ → Bool
without held p q = held q && not (q == p)

same_loop :
    (crc32hash : ℕ → ℕ) (hash : ℕ) (a b : List ℕ)
    → same_text a b ≡ true
    → strhash_loop crc32hash hash a ≡ strhash_loop crc32hash hash b
unfolding same_text strhash_loop hash_byte
same_loop crc32hash hash [] [] h = refl
same_loop crc32hash hash [] (d ∷ b) h = cc
same_loop crc32hash hash (c ∷ a) [] h = cc
same_loop crc32hash hash (c ∷ a) (d ∷ b) h =
    let e : to_lower c ≡ to_lower d = ground arith in
    rw e (same_loop crc32hash (hash_byte crc32hash hash d) a b (ground arith))

-- Names that differ in case alone have one hash value.
pub strhash-same_text :
    (crc32hash : ℕ → ℕ) (a b : List ℕ)
    → same_text a b ≡ true
    → strhash crc32hash a ≡ strhash crc32hash b
unfolding same_text strhash
strhash-same_text crc32hash [] [] h = refl
strhash-same_text crc32hash [] (d ∷ b) h = cc
strhash-same_text crc32hash (c ∷ a) [] h = cc
strhash-same_text crc32hash (c ∷ a) (d ∷ b) h =
    let e : to_lower c ≡ to_lower d = ground arith in
    rw e (
      ap (λ n. n % hashsize)
        (same_loop crc32hash (crc32hash (bit_and (to_lower d) 255)) a b (ground arith)))

module _ {crc32hash : ℕ → ℕ} {name : ℕ → List ℕ} {held : ℕ → Bool} {t : Table} where
  pub add-Holds :
      (p : ℕ)
      → Holds crc32hash name held t
      → held p ≡ false
      → Holds crc32hash name (insert held p) (add crc32hash name t p)
  unfolding add insert contains
  add-Holds p h new =
      let k : ℕ = strhash crc32hash (name p) in
      let absent : contains p (t k) ≡ false = h.chains k p ∙ rw new refl in
      record {
        chains = λ v q. ground (arith, h.chains v q);
        once = λ v. elim (Bool-cases (v == k)) [
          | inl e ↦ rw e (absent, h.once k)
          | inr e ↦ rw e (h.once v)
        ];
      }

  pub rem-Holds :
      (p : ℕ)
      → Holds crc32hash name held t
      → Holds crc32hash name (without held p) (rem crc32hash name t p).0
  unfolding rem without
  rem-Holds p h =
      let k : ℕ = strhash crc32hash (name p) in
      record {
        chains = λ v q. ground (arith, h.chains v q, contains-erase q p (t v) (h.once v));
        once = λ v. elim (Bool-cases (v == k)) [
          | inl e ↦ rw e (erase-NoDup p (t k) (h.once k))
          | inr e ↦ rw e (h.once v)
        ];
      }

  pub rem-found : (p : ℕ) → Holds crc32hash name held t → (rem crc32hash name t p).1 ≡ held p
  unfolding rem
  rem-found p h = ground (arith, h.chains (strhash crc32hash (name p)) p)

  -- The new name is stored behind `hChangeClient`.
  pub change-Holds :
      (p : ℕ) (newname : List ℕ)
      → Holds crc32hash name held t
      → held p ≡ true
      → Holds crc32hash (update name p newname) held (change crc32hash name t p newname)
  unfolding change rem contains
  change-Holds p newname h old =
      let k : ℕ = strhash crc32hash (name p) in
      let new : ℕ = strhash crc32hash newname in
      let removed : Table = (rem crc32hash name t p).0 in
      let r : Holds crc32hash name (without held p) removed = rem-Holds p h in
      let absent : contains p (removed new) ≡ false =
        unfold without in ground (arith, r.chains new p) in
      record {
        chains = λ v q. elim (Bool-cases (q == p)) [
          | inl e ↦ unfold without in ground (arith, r.chains v q)
          | inr e ↦ unfold without in ground (arith, r.chains v q)
        ];
        once = λ v. elim (Bool-cases (v == new)) [
          | inl e ↦ rw e (absent, r.once new)
          | inr e ↦ rw e (r.once v)
        ];
      }

  pub front-Holds :
      (p k : ℕ)
      → Holds crc32hash name held t
      → contains p (t k) ≡ true
      → Holds crc32hash name held (update t k (p ∷ erase p (t k)))
  unfolding contains
  front-Holds p k h at = record {
    chains = λ v q. ground (arith, h.chains v q, h.chains k p, contains-erase q p (t k) (h.once k));
    once = λ v. elim (Bool-cases (v == k)) [
      | inl e ↦
          rw e (ground (arith, contains-erase p p (t k) (h.once k)), erase-NoDup p (t k) (h.once k))
      | inr e ↦ rw e (h.once v)
    ];
  }

  -- A pointer that the table does not hold may get any name.
  pub rename-Holds :
      (p : ℕ) (n : List ℕ)
      → Holds crc32hash name held t
      → held p ≡ false
      → Holds crc32hash (update name p n) held t
  rename-Holds p n h new = record {
    chains = λ v q. elim (Bool-cases (q == p)) [
      | inl e ↦ ground (arith, h.chains v q)
      | inr e ↦ ground (arith, h.chains v q)
    ];
    once = h.once;
  }
