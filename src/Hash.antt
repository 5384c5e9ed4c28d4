-- ===== src/Hash.antt =====
-- ircd/hash.c: the hash tables of clients, channels and monitors, which fold case. A chain is the list of
-- its pointers; `name` gives the name that a pointer leads to.
pub mod Content
pub mod Seek
pub mod History
pub mod Jupes
use irch.Base.{
  Bool, List, Option, [], arith, bit_and, bit_xor, erase, if◌then◌else◌, none, some, update, ℕ, ◌%◌,
  ◌&&◌, ◌/◌, ◌∷◌, contains,
}
use irch.Chattr.{to_lower}
use irch.Crule.{same_text}

-- `HASHSIZE` of include/hash.h.
abbrev pub hashsize : ℕ
hashsize = 32000

-- One update of the loop of `strhash`; `crc32hash` is the table that `init_hash` has shuffled.
unfoldable pub hash_byte : (ℕ → ℕ) → ℕ → ℕ → ℕ
hash_byte crc32hash hash c =
    bit_xor (hash / 256) (crc32hash (bit_and (bit_xor hash (to_lower c)) 255))

unfoldable pub strhash_loop : (ℕ → ℕ) → ℕ → List ℕ → ℕ
strhash_loop crc32hash hash [] = hash
strhash_loop crc32hash hash (c ∷ n) = strhash_loop crc32hash (hash_byte crc32hash hash c) n

-- For the empty text it reads the byte behind the NUL: callers give names that are not empty.
unfoldable pub strhash : (ℕ → ℕ) → List ℕ → ℕ
strhash crc32hash [] = crc32hash 0 % hashsize
strhash crc32hash (c ∷ n) =
    strhash_loop crc32hash (crc32hash (bit_and (to_lower c) 255)) n % hashsize

-- `clientTable`, `channelTable` or `monitorTable`.
abbrev pub Table : Type 0
Table = ℕ → List ℕ

module _ (crc32hash : ℕ → ℕ) (name : ℕ → List ℕ) where
  -- hAddClient, hAddChannel, hAddMonitor
  unfoldable pub add : Table → ℕ → Table
  add table p = let hashv = strhash crc32hash (name p) in update table hashv (p ∷ table hashv)

  -- hRemClient, hRemChannel, hRemMonitor; `false` stands for -1.
  unfoldable pub rem : Table → ℕ → Table × Bool
  rem table p =
      let hashv = strhash crc32hash (name p) in
      (update table hashv (erase p (table hashv)), contains p (table hashv))

  -- hChangeClient, which runs before the caller stores the new name.
  unfoldable pub change : Table → ℕ → List ℕ → Table
  change table p newname =
      let newhash = strhash crc32hash newname in
      let removed = (rem table p).0 in update removed newhash (p ∷ removed newhash)

-- The walk along a chain for a node that passes the test.
unfoldable pub first : (ℕ → Bool) → List ℕ → Option ℕ
first test [] = none
first test (p ∷ ps) = let onward = first test ps in if test p then some p else onward

-- hSeekClient, where `wanted` is the test of the status against TMask; hSeekChannel and hSeekMonitor,
-- where it always holds. What is found moves to the front of its chain.
unfoldable pub seek : (ℕ → ℕ) → (ℕ → List ℕ) → (ℕ → Bool) → Table → List ℕ → Table × Option ℕ
seek crc32hash name wanted table text =
    let hashv = strhash crc32hash text in
    let found = first (λ p. wanted p && same_text text (name p)) (table hashv) in
    elim found [
      | none ↦ (table, none)
      | some p ↦ (update table hashv (p ∷ erase p (table hashv)), some p)
    ]
