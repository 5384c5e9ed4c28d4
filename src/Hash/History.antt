-- ===== src/Hash/History.antt =====
-- ircd/hash.c: the calls that the daemon makes of a table, one after the other.
use irch.Base.{Bool, List, [], arith, false, refl, true, update, ℕ, ◌≡◌}
use irch.Hash.{Table, add, change, rem, seek}
use irch.Hash.Content.{Holds, add-Holds, change-Holds, insert, rem-Holds, rename-Holds, without}
use irch.Hash.Seek.{Answers, is_named, seek-Answers}

-- The names of the pointers, those that are registered, and the table.
pub record State : Type 0 where
  pub name : ℕ → List ℕ
  pub held : ℕ → Bool
  pub table : Table

module _ (crc32hash : ℕ → ℕ) where
  pub data Step (s : State) : State → Type 0 where
    -- hAddClient of a client that has just got its name
    added :
        (p : ℕ) (n : List ℕ)
        → s.held p ≡ false
        → Step s (record {
          name = update s.name p n;
          held = insert s.held p;
          table = add crc32hash (update s.name p n) s.table p;
        })
    -- hRemClient, also of a client that is not in the table
    removed :
        (p : ℕ)
        → Step s (record s { held = without s.held p; table = (rem crc32hash s.name s.table p).0 })
    -- hChangeClient, and the new name that its caller stores
    changed :
        (p : ℕ) (newname : List ℕ)
        → s.held p ≡ true
        → Step s (record s {
          name = update s.name p newname;
          table = change crc32hash s.name s.table p newname;
        })
    -- hSeekClient
    sought :
        (wanted : ℕ → Bool) (text : List ℕ)
        → Step s (record s { table = (seek crc32hash s.name wanted s.table text).0 })

  -- The states that a sequence of calls reaches from empty chains.
  pub data Reach (name : ℕ → List ℕ) : State → Type 0 where
    start : Reach name (record { name = name; held = λ p. false; table = λ v. [] })
    next : {s s' : State} → Reach name s → Step s s' → Reach name s'

module _ {crc32hash : ℕ → ℕ} where
  Step-Holds :
      {s s' : State}
      → Step crc32hash s s'
      → Holds crc32hash s.name s.held s.table
      → Holds crc32hash s'.name s'.held s'.table
  Step-Holds {s} (added p n new) h = add-Holds p (rename-Holds p n h new) new
  Step-Holds (removed p) h = rem-Holds p h
  Step-Holds (changed p newname old) h = change-Holds p newname h old
  Step-Holds (sought wanted text) h = (seek-Answers wanted text h).0

  Reach-Holds :
      {name : ℕ → List ℕ} {s : State}
      → Reach crc32hash name s
      → Holds crc32hash s.name s.held s.table
  unfolding irch.Base.contains
  Reach-Holds start = record { chains = λ v p. refl; once = λ v. tt }
  Reach-Holds (next r step) = Step-Holds step (Reach-Holds r)

  -- Whatever registrations, removals, renamings and searches came before, from empty chains on,
  -- `hSeekClient` answers rightly: with a registered client that has the name, upper and lower case
  -- being the same, and a wanted status, and with null only if there is none.
  pub Reach-seek :
      {name : ℕ → List ℕ} {s : State} (wanted : ℕ → Bool) (text : List ℕ)
      → Reach crc32hash name s
      → Answers s.held (is_named s.name wanted text) (seek crc32hash s.name wanted s.table text).1
  Reach-seek wanted text r = (seek-Answers wanted text (Reach-Holds r)).1
