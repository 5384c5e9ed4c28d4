-- ===== src/Tests/Hashes.antt =====
-- ircd/hash.c on a small table.
use irch.Base.{◌∷◌, Bool, List, [], arith, codes, false, refl, some, true, update, ℕ, ◌≡◌}
use irch.Hash.{Table, add, seek, strhash}
use irch.Hash.Content.{insert}
use irch.Hash.History.{Reach, Reach-seek, State, added, next, start}
use irch.Hash.Jupes.{Jupes, add_nick_jupes, clear_nick_jupes, is_nick_juped}
use irch.Hash.Jupes.Juped.{Grows, add_nick_jupes-Grows, clear_nick_jupes-IsValid}
use irch.Hash.Jupes.Valid.{IsValid}
use irch.Hash.Seek.{Answers, is_named}

-- Every byte leads to the same entry, so that all names share a chain.
abbrev crc32hash : ℕ → ℕ
crc32hash = λ v. 7

abbrev no_names : ℕ → List ℕ
no_names = λ p. []

abbrev one : State
one = record {
  name = update no_names 1 (codes "Run");
  held = insert (λ p. false) 1;
  table = add crc32hash (update no_names 1 (codes "Run")) (λ v. []) 1;
}

abbrev two : State
two = record {
  name = update one.name 2 (codes "Isomer");
  held = insert one.held 2;
  table = add crc32hash (update one.name 2 (codes "Isomer")) one.table 2;
}

two-Reach : Reach crc32hash no_names two
unfolding insert
two-Reach = next (next start (added 1 (codes "Run") refl)) (added 2 (codes "Isomer") refl)

Reach-seek_example :
    Answers two.held
      (is_named two.name (λ p. true) (codes "RUN"))
      (seek crc32hash two.name (λ p. true) two.table (codes "RUN")).1
Reach-seek_example = Reach-seek (λ p. true) (codes "RUN") two-Reach

found_behind : (seek crc32hash two.name (λ p. true) two.table (codes "RUN")).1 ≡ some 1
unfolding seek add strhash irch.Hash.strhash_loop irch.Hash.hash_byte irch.Hash.first
    irch.Crule.same_text irch.Chattr.to_lower irch.Base.erase
found_behind = refl

abbrev jupes : List (List ℕ)
jupes = codes "ChanServ" ∷ codes "NickServ" ∷ []

add_nick_jupes-Grows_example :
    (s' : Jupes) × (full : Bool) × (add_nick_jupes crc32hash clear_nick_jupes jupes
      ≡ some (s', full))
    × IsValid crc32hash s'
    × ((x : ℕ) (t : List ℕ) → (b : Bool) × (is_nick_juped crc32hash s' (x ∷ t) ≡ some b))
    × (full ≡ false → Grows crc32hash clear_nick_jupes s' jupes)
add_nick_jupes-Grows_example =
    add_nick_jupes-Grows clear_nick_jupes jupes (clear_nick_jupes-IsValid crc32hash)
      (omega arith, (omega arith, tt))
