-- ===== src/Hash/Jupes/Juped.antt =====
-- ircd/hash.c: the nicks that are juped after jupes were added.
use irch.Base.{
  Bool, Bool-cases, List, [], ap, arith, false, inl, inr, length, refl, some, suc, sym, take, true,
  zero, ℕ, ◌==◌, ◌<◌, ◌≤◌, ◌∙◌, ◌∷◌, ◌≡◌, ◌||◌,
}
use irch.Crule.{same_text}
use irch.Hash.{strhash}
use irch.Hash.Content.{strhash-same_text}
use irch.Hash.Jupes.{
  clear_nick_jupes, Jupes, add_nick_jupes, add_one, is_nick_juped, jupehashsize, jupemax, nicklen,
  probe,
}
use irch.Hash.Jupes.Occupied.{occupied, occupied-free, occupied-update}
use irch.Hash.Jupes.Probe.{probe-same_text}
use irch.Hash.Jupes.Valid.{IsValid, probe-total}
use irch.Hash.Jupes.Filled.{filled, filled-IsValid, filled-juped}

-- Whether the nick is one of the list, upper and lower case being the same.
unfoldable pub is_among : List ℕ → List (List ℕ) → Bool
is_among nick [] = false
is_among nick (n ∷ nicks) = same_text nick n || is_among nick nicks

-- Nicks as the protocol has them.
abbrev pub AllFit : List (List ℕ) → Type 0
AllFit [] = Unit
AllFit (n ∷ nicks) = (length n ≤ nicklen) × AllFit nicks

take-fit : (k : ℕ) (n : List ℕ) → length n ≤ k → take k n ≡ n
take-fit zero [] h = refl
take-fit zero (c ∷ n) h = absurd (omega arith)
take-fit (suc k) [] h = refl
take-fit (suc k) (c ∷ n) h = ap (λ t. c ∷ t) (take-fit k n (omega arith))

-- Behind the addition of `nicks`, what was juped still is, those nicks are as well, and no others.
abbrev pub Grows : (ℕ → ℕ) → Jupes → Jupes → List (List ℕ) → Type 0
Grows crc32hash s s' nicks =
    (x : ℕ) (t : List ℕ) (b : Bool)
    → is_nick_juped crc32hash s (x ∷ t) ≡ some b
    → is_nick_juped crc32hash s' (x ∷ t) ≡ some (is_among (x ∷ t) nicks || b)

juped-probe :
    (crc32hash : ℕ → ℕ) (s : Jupes) (x : ℕ) (t : List ℕ) (b : Bool) (r : ℕ)
    → probe s.slots jupehashsize (x ∷ t) (strhash crc32hash (x ∷ t)) ≡ some (b, r)
    → is_nick_juped crc32hash s (x ∷ t) ≡ some b
unfolding is_nick_juped
juped-probe crc32hash s x t b r e = rw (is_nick_juped, e) refl

module _ {crc32hash : ℕ → ℕ} {s : Jupes} (v : IsValid crc32hash s) (c : ℕ) (n : List ℕ)
    (q : ℕ) where
  -- A nick that is juped already is not added again.
  present-Grows :
      probe s.slots jupehashsize (c ∷ n) (strhash crc32hash (c ∷ n)) ≡ some (true, q)
      → Grows crc32hash s s ((c ∷ n) ∷ [])
  unfolding is_among
  present-Grows at x t b before = elim (Bool-cases (same_text (x ∷ t) (c ∷ n))) [
    | inl same ↦
        let found =
          ap (probe s.slots jupehashsize (x ∷ t)) (strhash-same_text crc32hash (x ∷ t) (c ∷ n) same)
          ∙ probe-same_text s.slots jupehashsize (x ∷ t) (c ∷ n) (strhash crc32hash (c ∷ n)) same
          ∙ at in
        juped-probe crc32hash s x t true q found ∙ ap (λ b. some b) (ground arith)
    | inr other ↦ before ∙ ap (λ b. some b) (ground arith)
  ]

  filled-Grows :
      probe s.slots jupehashsize (c ∷ n) (strhash crc32hash (c ∷ n)) ≡ some (false, q)
      → s.count < jupemax
      → Grows crc32hash s (filled s q c n) ((c ∷ n) ∷ [])
  unfolding is_among
  filled-Grows free room x t b before =
      let ((b0, r), ends) = probe-total v (x ∷ t) in
      let both = sym (juped-probe crc32hash s x t b0 r ends) ∙ before in
      let same : b0 ≡ b = cc in
      let (r', after) = filled-juped v q c n free x t b0 r room ends in
      juped-probe crc32hash (filled s q c n) x t (same_text (x ∷ t) (c ∷ n) || b0) r' after
      ∙ ap (λ b. some b) (ground arith)

add_one-Grows :
    {crc32hash : ℕ → ℕ} {s : Jupes} (v : IsValid crc32hash s) (c : ℕ) (n : List ℕ)
    → length (c ∷ n) ≤ nicklen
    → (s' : Jupes) × (full : Bool) × (add_one crc32hash s (c ∷ n) ≡ some (s', full))
      × IsValid crc32hash s'
      × (full ≡ false → Grows crc32hash s s' ((c ∷ n) ∷ []))
unfolding add_one is_among
add_one-Grows {crc32hash} {s} v c n fits =
    let ((b, q), ends) = probe-total v (c ∷ n) in
    elim (Bool-cases b) [
      | inl present ↦
          let at = ends ∙ ap (λ b. some (b, q)) present in
          (s, false, rw (add_one, at) refl, v, λ ok. present-Grows v c n q at)
      | inr absent ↦
          let free = ends ∙ ap (λ b. some (b, q)) absent in
          elim (Bool-cases (s.count == jupemax)) [
            | inl full ↦ (s, true, rw (add_one, free, full) refl, v, λ ok. cc)
            | inr room ↦
                let less : s.count < jupemax = let few = v.few in ground arith in
                (
                  filled s q c n,
                  false,
                  rw (add_one, free, room, take-fit nicklen (c ∷ n) fits) refl,
                  filled-IsValid v q c n free less,
                  λ ok. filled-Grows v c n q free less,
                )
          ]
    ]

Grows-add :
    (crc32hash : ℕ → ℕ) (s s1 s2 : Jupes) (n : List ℕ) (nicks : List (List ℕ))
    → Grows crc32hash s s1 (n ∷ [])
    → Grows crc32hash s1 s2 nicks
    → Grows crc32hash s s2 (n ∷ nicks)
unfolding is_among
Grows-add crc32hash s s1 s2 n nicks g g' x t b before =
    let was = same_text (x ∷ t) n || false || b in
    g' x t (same_text (x ∷ t) n || false || b) (g x t b before) ∙ ap (λ b. some b) (ground arith)

add_nick_jupes-Grows_if_room :
    {crc32hash : ℕ → ℕ} (s : Jupes) (nicks : List (List ℕ))
    → IsValid crc32hash s
    → AllFit nicks
    → (s' : Jupes) × (full : Bool) × (add_nick_jupes crc32hash s nicks ≡ some (s', full))
      × IsValid crc32hash s'
      × (full ≡ false → Grows crc32hash s s' nicks)
unfolding add_nick_jupes is_among same_text
add_nick_jupes-Grows_if_room s [] v fit = (s, false, refl, v, λ ok x t b before. before)
add_nick_jupes-Grows_if_room {crc32hash} s ([] ∷ nicks) v fit =
    let (s', full, e, v', grows) = add_nick_jupes-Grows_if_room s nicks v fit.1 in
    (s', full, e, v', λ ok x t b before. grows ok x t b before)
add_nick_jupes-Grows_if_room {crc32hash} s ((c ∷ n) ∷ nicks) v fit =
    let (s1, full1, e1, v1, grows1) = add_one-Grows v c n fit.0 in
    elim (Bool-cases full1) [
      | inl full ↦
          let e : add_one crc32hash s (c ∷ n) ≡ some (s1, true) =
            e1 ∙ ap (λ f. some (s1, f)) full in
          (s1, true, rw (add_nick_jupes, e) refl, v1, λ ok. cc)
      | inr room ↦
          let e : add_one crc32hash s (c ∷ n) ≡ some (s1, false) =
            e1 ∙ ap (λ f. some (s1, f)) room in
          let (s2, full2, e2, v2, grows2) = add_nick_jupes-Grows_if_room s1 nicks v1 fit.1 in
          (
            s2,
            full2,
            rw (add_nick_jupes, e) e2,
            v2,
            λ ok. Grows-add crc32hash s s1 s2 (c ∷ n) nicks (grows1 room) (grows2 ok),
          )
    ]

is_nick_juped-total :
    {crc32hash : ℕ → ℕ} {s : Jupes}
    → IsValid crc32hash s
    → (x : ℕ) (t : List ℕ) → (b : Bool) × (is_nick_juped crc32hash s (x ∷ t) ≡ some b)
is_nick_juped-total {crc32hash} {s} v x t =
    let ((b, r), ends) = probe-total v (x ∷ t) in (b, juped-probe crc32hash s x t b r ends)

-- In a valid table, for nicks that fit in a slot, `addNickJupes` ends and leaves a valid table, in which
-- `isNickJuped` ends for every nick; and if it does not say that the table is full, then exactly the
-- nicks that were juped before and those of the list are juped, upper and lower case being the same.
pub add_nick_jupes-Grows :
    {crc32hash : ℕ → ℕ} (s : Jupes) (nicks : List (List ℕ))
    → IsValid crc32hash s
    → AllFit nicks
    → (s' : Jupes) × (full : Bool) × (add_nick_jupes crc32hash s nicks ≡ some (s', full))
      × IsValid crc32hash s'
      × ((x : ℕ) (t : List ℕ) → (b : Bool) × (is_nick_juped crc32hash s' (x ∷ t) ≡ some b))
      × (full ≡ false → Grows crc32hash s s' nicks)
add_nick_jupes-Grows s nicks v fit =
    let (s', full, e, v', grows) = add_nick_jupes-Grows_if_room s nicks v fit in
    (s', full, e, v', is_nick_juped-total v', grows)

occupied-clear : (k : ℕ) → occupied k (λ i. []) ≡ 0
unfolding occupied irch.Hash.Jupes.Occupied.weight
occupied-clear zero = refl
occupied-clear (suc k) = rw (occupied-clear k) refl

pub clear_nick_jupes-IsValid : (crc32hash : ℕ → ℕ) → IsValid crc32hash clear_nick_jupes
clear_nick_jupes-IsValid crc32hash = record {
  found = λ p c n within at. cc;
  counted = sym (occupied-clear jupehashsize);
  few = omega arith;
}
