-- ===== src/Monitor.antt =====
-- ircd/monitor.c and the lists of ircd/m_monitor.c: who is told when a nick comes or goes. A
-- `struct Monitor *` is a number, `mptr` is what MyMalloc answers, and a list of links is the list of the
-- pointers in it, from the head on.
pub mod Watches
pub mod Linked
pub mod Changes
pub mod Agrees
pub mod Find
pub mod Delete
pub mod Clean
pub mod Told
pub mod History
use irch.Base.{
  Bool, List, Option, [], arith, contains, erase, false, if◌then◌else◌, leb, length, map, none, not,
  some, true, update, ℕ, ◌&&◌, ◌||◌, ◌∷◌,
}
use irch.Channel.{dec, inc}
use irch.Hash.{Table, add, rem, seek}

-- `mo_nick` and `mo_monitor` of a monitor, the second here `watchers`; `monitorTable` and `monitorCount`;
-- and `monitor`, here `watched`, and `monitors` of a user.
pub record State : Type 0 where
  pub nick : ℕ → List ℕ
  pub watchers : ℕ → List ℕ
  pub table : Table
  pub count : ℕ
  pub watched : ℕ → List ℕ
  pub monitors : ℕ → ℕ

unfoldable pub is_empty : List ℕ → Bool
is_empty [] = true
is_empty (c ∷ n) = false

module _ (crc32hash : ℕ → ℕ) where
  -- FindMonitor
  unfoldable pub find_monitor : State → List ℕ → State × Option ℕ
  find_monitor s [] = (s, none)
  find_monitor s (c ∷ n) =
      let sought = seek crc32hash s.nick (λ p. true) s.table (c ∷ n) in
      (record s { table = sought.0 }, sought.1)

  -- The count is the word of 32 bits that the int has.
  unfoldable pub make_monitor : State → ℕ → List ℕ → State
  unfolding inc
  make_monitor s mptr n =
      let named = update s.nick mptr n in
      record s {
        nick = named;
        watchers = update s.watchers mptr [];
        table = add crc32hash named s.table mptr;
        count = inc s.count;
      }

  unfoldable pub free_monitor : State → ℕ → State
  unfolding dec
  free_monitor s mptr = record s {
    table = (rem crc32hash s.nick s.table mptr).0;
    count = dec s.count;
  }

  -- The links that `monitor_add_nick` makes.
  unfoldable pub link : State → ℕ → ℕ → State
  unfolding inc
  link s cptr mptr = if contains cptr (s.watchers mptr) then s else record s {
    watchers = update s.watchers mptr (cptr ∷ s.watchers mptr);
    watched = update s.watched cptr (mptr ∷ s.watched cptr);
    monitors = update s.monitors cptr (inc (s.monitors cptr));
  }

  unfoldable pub monitor_add_nick : State → ℕ → List ℕ → ℕ → State
  monitor_add_nick s cptr n mptr =
      let (s', found) = find_monitor s n in
      elim found [
        | some known ↦ link s' cptr known
        | none ↦ link (make_monitor s' mptr n) cptr mptr
      ]

  -- A monitor that nobody watches any more is released.
  unfoldable pub release : State → ℕ → State
  release s mptr = if is_empty (s.watchers mptr) then free_monitor s mptr else s

  -- The two links are taken off their lists.
  unfoldable pub unlink : State → ℕ → ℕ → State
  unfolding dec
  unlink s cptr mptr =
      let l = record s {
        watchers = update s.watchers mptr (erase cptr (s.watchers mptr));
        watched = update s.watched cptr (erase mptr (s.watched cptr));
      } in
      let r = release l mptr in
      record r { monitors = update r.monitors cptr (dec (r.monitors cptr)) }

  -- `none` is a read through null, which the assertion excludes.
  unfoldable pub monitor_del_nick : State → ℕ → List ℕ → Option State
  monitor_del_nick s cptr n =
      let (s', found) = find_monitor s n in
      elim found [
        | none ↦ some s'
        | some mptr ↦
            if not (contains cptr (s'.watchers mptr))
            then some s'
            else if contains mptr (s'.watched cptr)
            then some (unlink s' cptr mptr)
            else none
      ]

  -- The round of `monitor_list_clean` for one link of the client's.
  unfoldable pub clean_one : State → ℕ → ℕ → State
  clean_one s cptr mptr =
      release (record s { watchers = update s.watchers mptr (erase cptr (s.watchers mptr)) }) mptr

  unfoldable pub clean_loop : State → ℕ → List ℕ → Option State
  clean_loop s cptr [] = some s
  clean_loop s cptr (mptr ∷ lp) = elim (contains cptr (s.watchers mptr)) [
    | false ↦ none
    | true ↦ clean_loop (clean_one s cptr mptr) cptr lp
  ]

  unfoldable pub monitor_list_clean : State → ℕ → Option State
  monitor_list_clean s cptr = elim (s.watched cptr) [
    | [] ↦ some s
    | mptr ∷ lp ↦ elim (clean_loop s cptr (mptr ∷ lp)) [
      | none ↦ none
      | some s' ↦
          some (record s' {
            watched = update s'.watched cptr [];
            monitors = update s'.monitors cptr 0;
          })
    ]
  ]

  -- The clients that `monitor_notify` sends to.
  unfoldable pub monitor_notify : State → List ℕ → State × List ℕ
  monitor_notify s n =
      let (s', found) = find_monitor s n in
      (s', elim found [ none ↦ [] | some mptr ↦ s'.watchers mptr ])

  -- The loop of `add_monitor`: `nicks` is what `ircd_strtok` splits off, each with what MyMalloc answers;
  -- `limit` is FEAT_MAXMONITOR, and `name` is `cli_name(sptr)`. The second result says that the list is
  -- full.
  unfoldable pub add_loop : ℕ → List ℕ → State → ℕ → List (List ℕ × ℕ) → State × Bool
  add_loop limit name s sptr [] = (s, false)
  add_loop limit name s sptr ((n, mptr) ∷ nicks) = elim (is_empty n || leb 15 (length n)) [
    | true ↦ add_loop limit name s sptr nicks
    | false ↦ elim (leb limit (s.monitors sptr)) [
      | true ↦ (s, true)
      | false ↦
          let (s', own) = find_monitor s name in
          elim own [
            | some own_mptr ↦ add_loop limit name s' sptr nicks
            | none ↦ add_loop limit name (monitor_add_nick s' sptr n mptr) sptr nicks
          ]
    ]
  ]

  -- The loop of `del_monitor`.
  unfoldable pub del_loop : State → ℕ → List (List ℕ) → Option State
  del_loop s sptr [] = some s
  del_loop s sptr (n ∷ nicks) = elim (is_empty n) [
    | true ↦ del_loop s sptr nicks
    | false ↦ elim (monitor_del_nick s sptr n) [ none ↦ none | some s' ↦ del_loop s' sptr nicks ]
  ]

  unfoldable pub del_monitor : State → ℕ → List (List ℕ) → Option State
  del_monitor s sptr nicks = if is_empty (s.watched sptr) then some s else del_loop s sptr nicks
