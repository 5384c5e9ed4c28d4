-- ===== src/Hash/Jupes.antt =====
-- ircd/hash.c: the table of nick jupes, an array of texts in which a nick that collides moves up.
pub mod Probe
pub mod Occupied
pub mod Valid
pub mod Filled
pub mod Juped
use irch.Base.{
  Bool, List, Option, [], arith, false, if◌then◌else◌, none, some, suc, take, true, update, zero, ℕ,
  ◌%◌, ◌+◌, ◌==◌, ◌∷◌,
}
use irch.Crule.{same_text}
use irch.Hash.{strhash}

abbrev pub jupehashsize : ℕ
jupehashsize = 4096

abbrev pub jupemax : ℕ
jupemax = 64

abbrev pub nicklen : ℕ
nicklen = 15

-- `jupeTable` and `jupesCount`
pub record Jupes : Type 0 where
  pub slots : ℕ → List ℕ
  pub count : ℕ

-- The walk from `pos` to the nick, with `true`, or to an empty slot; `pos & JUPEHASHMASK` is a
-- remainder. `none` is the end of the fuel.
unfoldable pub probe : (ℕ → List ℕ) → ℕ → List ℕ → ℕ → Option (Bool × ℕ)
probe slots zero nick pos = none
probe slots (suc fuel) nick pos = elim (slots (pos % jupehashsize)) [
  | [] ↦ some (false, pos % jupehashsize)
  | c ∷ n ↦ elim (same_text nick (c ∷ n)) [
    | true ↦ some (true, pos % jupehashsize)
    | false ↦ probe slots fuel nick (pos % jupehashsize + 1)
  ]
]

module _ (crc32hash : ℕ → ℕ) where
  unfoldable pub is_nick_juped : Jupes → List ℕ → Option Bool
  is_nick_juped s [] = some false
  is_nick_juped s (c ∷ n) = elim (probe s.slots jupehashsize (c ∷ n) (strhash crc32hash (c ∷ n))) [
    | none ↦ none
    | some (juped, pos) ↦ some juped
  ]

  -- The round for one nick; the second result says that the table is full.
  unfoldable pub add_one : Jupes → List ℕ → Option (Jupes × Bool)
  add_one s one = elim (probe s.slots jupehashsize one (strhash crc32hash one)) [
    | none ↦ none
    | some (true, pos) ↦ some (s, false)
    | some (false, pos) ↦
        if s.count == jupemax
        then some (s, true)
        else some
            (record { slots = update s.slots pos (take nicklen one); count = s.count + 1 }, false)
  ]

  -- `nicks` is what `ircd_strtok` splits off.
  unfoldable pub add_nick_jupes : Jupes → List (List ℕ) → Option (Jupes × Bool)
  add_nick_jupes s [] = some (s, false)
  add_nick_jupes s ([] ∷ nicks) = add_nick_jupes s nicks
  add_nick_jupes s ((c ∷ n) ∷ nicks) = elim (add_one s (c ∷ n)) [
    | none ↦ none
    | some (s', true) ↦ some (s', true)
    | some (s', false) ↦ add_nick_jupes s' nicks
  ]

abbrev pub clear_nick_jupes : Jupes
clear_nick_jupes = record { slots = λ i. []; count = 0 }
