-- ===== src/Hash/Jupes/Valid.antt =====
-- ircd/hash.c: a valid table of nick jupes, in which every walk ends and finds what is there.
use mathlib.Core.Path.{subst}
use irch.Base.{Bool, List, ap, arith, some, sym, true, ℕ, ◌%◌, ◌+◌, ◌-◌, ◌<◌, ◌≤◌, ◌∙◌, ◌∷◌, ◌≡◌}
use irch.Crule.{same_text}
use irch.Hash.{strhash}
use irch.Hash.Content.{strhash-same_text}
use irch.Hash.Jupes.{Jupes, jupehashsize, jupemax, probe}
use irch.Hash.Jupes.Occupied.{occupied, occupied-free}
use irch.Hash.Jupes.Probe.{probe-ends, probe-same_text}

-- The walk for the nick of a slot finds it, and the count is right and within its bound.
pub record IsValid (crc32hash : ℕ → ℕ) (s : Jupes) : Type 0 where
  pub found :
      (p c : ℕ) (n : List ℕ)
      → p < jupehashsize
      → s.slots p ≡ c ∷ n
      → (q : ℕ) × (probe s.slots jupehashsize (c ∷ n) (strhash crc32hash (c ∷ n)) ≡ some (true, q))
  pub counted : s.count ≡ occupied jupehashsize s.slots
  pub few : s.count ≤ jupemax

module _ {crc32hash : ℕ → ℕ} {s : Jupes} (v : IsValid crc32hash s) where
  -- The walk always ends.
  pub probe-total :
      (nick : List ℕ)
      → (r : Bool × ℕ) × (probe s.slots jupehashsize nick (strhash crc32hash nick) ≡ some r)
  probe-total nick =
      let few = v.few in
      let (e, within, free) =
        occupied-free jupehashsize s.slots
          (subst (λ k. k < jupehashsize) v.counted (omega arith)) in
      let start : ℕ = strhash crc32hash nick in
      let d : ℕ = (e + jupehashsize - start % jupehashsize) % jupehashsize in
      let reached : e ≡ (start + d) % jupehashsize = omega arith in
      probe-ends s.slots jupehashsize nick start d (ap s.slots (sym reached) ∙ free) (omega arith)

  -- If a slot has the nick, then the walk finds it.
  pub probe-held :
      (nick : List ℕ) (p c : ℕ) (n : List ℕ)
      → p < jupehashsize
      → s.slots p ≡ c ∷ n
      → same_text nick (c ∷ n) ≡ true
      → (q : ℕ) × (probe s.slots jupehashsize nick (strhash crc32hash nick) ≡ some (true, q))
  probe-held nick p c n within at same =
      let (q, found) = v.found p c n within at in
      let start : strhash crc32hash nick ≡ strhash crc32hash (c ∷ n) =
        strhash-same_text crc32hash nick (c ∷ n) same in
      (
        q,
        ap (probe s.slots jupehashsize nick) start
            ∙ probe-same_text s.slots jupehashsize nick (c ∷ n) (strhash crc32hash (c ∷ n)) same
            ∙ found,
      )
