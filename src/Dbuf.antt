-- ===== src/Dbuf.antt =====
-- ircd/dbuf.c: queues of bytes in chains of buffers, which come from a common pool. A buffer is the
-- offset of `start` in its data and the bytes from `start` up to `end`; a chain is the list of its
-- buffers from `head` on, and `tail` is the last of them. `unsigned int` has 32 bits.
pub mod Queue
pub mod Remove
pub mod Flush
pub mod Get
pub mod Line
use mathlib.Core.Option
use irch.Base.{
  min, ==_iff, Bool, Bool-cases, List, Option, Option-cases, [], all_below, all_below_sound, ap,
  arith, bit_and, bit_or, bit_xor, codes, dec_lt, drop, drop-append, false, get_elem?,
  get_elem?-set_ne, get_elem?-set_self, get_or, if◌then◌else◌, inl, inr, leb, leb→le, length,
  length-append, length-drop, length-map, length-replicate, length-set, length-take, ltb, ltb→lt,
  lt→ltb, map, none, not, refl, replicate, set, some, suc, sym, tail, take, take-append,
  take-append-drop, take_all, tests, true, update, update_ne, update_self, zero, ℕ, ℕ_discrete, ◌%◌,
  ◌&&◌, ◌*◌, ◌++◌, ◌+◌, ◌-◌, ◌/◌, ◌<◌, ◌==◌, ◌^◌, ◌||◌, ◌↔◌, ◌∙◌, ◌∷◌, ◌≡◌, ◌≢◌, ◌≤◌, ◌⊎◌,
}
use irch.Chattr.{is_eol}

-- DBUF_SIZE
abbrev pub dbuf_size : ℕ
dbuf_size = 2048

pub record Buffer : Type 0 where
  pub offset : ℕ
  pub bytes : List ℕ

pub record Dbuf : Type 0 where
  pub length : ℕ
  pub chain : List Buffer

-- `DBufAllocCount`, `DBufUsedCount`, and the number of buffers in `dbufFreeList`.
pub record Pool : Type 0 where
  pub alloc_count : ℕ
  pub used_count : ℕ
  pub free : ℕ

-- FEAT_BUFFERPOOL and FEAT_HAS_FERGUSON_FLUSHER, with what `flush_connections(0)` of ircd/send.c does
-- to the pool, and whether it clears the queue that is being filled, as `dead_link` does with the queue
-- of a client that cannot be written to.
pub record Config : Type 0 where
  pub bufferpool : ℕ
  pub ferguson_flusher : Bool
  pub flush_connections : Pool → Pool × Bool

unfoldable pub dbuf_alloc : Config → Pool → Option Pool
dbuf_alloc cfg pool =
    if ltb 0 pool.free
    then some (record pool { free = pool.free - 1; used_count = pool.used_count + 1 })
    else if ltb (pool.alloc_count * dbuf_size) cfg.bufferpool
    then some (record pool { alloc_count = pool.alloc_count + 1; used_count = pool.used_count + 1 })
    else none

unfoldable pub dbuf_free : Pool → Pool
dbuf_free pool = record pool { used_count = pool.used_count - 1; free = pool.free + 1 }

-- The loop of `dbuf_malloc_error`.
unfoldable pub free_chain : List Buffer → Pool → Pool
free_chain [] pool = pool
free_chain (b ∷ bs) pool = free_chain bs (dbuf_free pool)

unfoldable pub dbuf_malloc_error : Pool → List Buffer → Pool × Dbuf
dbuf_malloc_error pool chain = (free_chain chain pool, record { length = 0; chain = [] })

-- `(db->data + DBUF_SIZE) - db->end`
unfoldable pub space : Buffer → ℕ
space b = dbuf_size - (b.offset + length b.bytes)

-- `memcpy(db->end, buf, chunk)` with the chunk that fits; what is left of `buf` is `drop (space b) buf`.
unfoldable pub fill : Buffer → List ℕ → Buffer
unfolding space
fill b buf = record b { bytes = b.bytes ++ take (space b) buf }

-- The buffers that the loop of `dbuf_put` finds: the last one, or from the head of an empty queue on.
unfoldable pub fill_last : List Buffer → List ℕ → List Buffer × List ℕ
unfolding fill
fill_last [] buf = ([], buf)
fill_last (b ∷ []) buf = (fill b buf ∷ [], drop (space b) buf)
fill_last (b ∷ c ∷ bs) buf = let r = fill_last (c ∷ bs) buf in (b ∷ r.0, r.1)

unfoldable pub fill_all : List Buffer → List ℕ → List Buffer × List ℕ
unfolding fill
fill_all [] buf = ([], buf)
fill_all (b ∷ bs) buf = let r = fill_all bs (drop (space b) buf) in (fill b buf ∷ r.0, r.1)

-- A second attempt after `flush_connections`, where it is configured. `none` says that it has cleared
-- the queue that is being filled: the loop of `dbuf_put` then goes on with a pointer into a buffer that
-- has been freed, or with a length that has been reset, and what comes of that is not modelled.
unfoldable pub alloc_or_flush : Config → Pool → Option (Pool × Bool)
alloc_or_flush cfg pool = elim (dbuf_alloc cfg pool) [
  | some pool' ↦ some (pool', true)
  | none ↦ elim cfg.ferguson_flusher [
    | false ↦ some (pool, false)
    | true ↦ elim (cfg.flush_connections pool).1 [
      | true ↦ none
      | false ↦
          let flushed = (cfg.flush_connections pool).0 in
          elim (dbuf_alloc cfg flushed) [
            | some pool' ↦ some (pool', true)
            | none ↦ some (flushed, false)
          ]
    ]
  ]
]

-- The new buffers, and whether all of `buf` has been stored. Each round stores a byte or more, so
-- `length buf` rounds are enough.
pub record Grown : Type 0 where
  pub pool : Pool
  pub buffers : List Buffer
  pub stored : Bool

unfoldable pub grow : ℕ → Config → Pool → List ℕ → Option Grown
grow fuel cfg pool [] = some (record { pool = pool; buffers = []; stored = true })
grow zero cfg pool (c ∷ buf) = some (record { pool = pool; buffers = []; stored = false })
grow (suc fuel) cfg pool (c ∷ buf) = elim (alloc_or_flush cfg pool) [
  | none ↦ none
  | some (pool', false) ↦ some (record { pool = pool'; buffers = []; stored = false })
  | some (pool', true) ↦ elim (grow fuel cfg pool' (drop dbuf_size (c ∷ buf))) [
    | none ↦ none
    | some onward ↦ some (record onward {
      buffers = record { offset = 0; bytes = take dbuf_size (c ∷ buf) } ∷ onward.buffers;
    })
  ]
]

unfoldable pub filled : Dbuf → List ℕ → List Buffer × List ℕ
filled dyn buf = if dyn.length == 0 then fill_all dyn.chain buf else fill_last dyn.chain buf

-- The pool, the queue, and the C result: 1 or 0.
unfoldable pub dbuf_put : Config → Pool → Dbuf → List ℕ → Option (Pool × Dbuf × Bool)
dbuf_put cfg pool dyn buf =
    let f = filled dyn buf in
    elim (grow (length f.1) cfg pool f.1) [
      | none ↦ none
      | some g ↦
          let chain = f.0 ++ g.buffers in
          let failed = dbuf_malloc_error g.pool chain in
          some (
            if g.stored
            then (
              g.pool,
              record { length = (dyn.length + length buf) % 2 ^ 32; chain = chain },
              true,
            )
            else (failed.0, failed.1, false))
    ]

-- The first contiguous block.
unfoldable pub dbuf_map : Dbuf → Option (List ℕ)
dbuf_map dyn = elim dyn.chain [
  | [] ↦ none
  | b ∷ bs ↦ if dyn.length == 0 then none else some b.bytes
]

-- The loop of `dbuf_delete` over the chain: the pool, the length and the chain that are left.
unfoldable pub delete_chain : Pool → ℕ → List Buffer → ℕ → Pool × Dbuf
delete_chain pool len [] n = (pool, record { length = len; chain = [] })
delete_chain pool len (b ∷ bs) n =
    let chunk = min (length b.bytes) n in
    let left = drop chunk b.bytes in
    let freed = delete_chain (dbuf_free pool) (len - chunk) bs (n - chunk) in
    if n == 0
    then (pool, record { length = len; chain = b ∷ bs })
    else if length left == 0
    then freed
    else (
      pool,
      record {
        length = len - chunk;
        chain = record { offset = b.offset + chunk; bytes = left } ∷ bs;
      },
    )

-- `if (0 == dyn->head) dyn->length = 0;`
unfoldable pub settle : Dbuf → Dbuf
settle dyn = elim dyn.chain [ [] ↦ record { length = 0; chain = [] } | b ∷ bs ↦ dyn ]

unfoldable pub dbuf_delete : Pool → Dbuf → ℕ → Pool × Dbuf
dbuf_delete pool dyn n =
    let r = delete_chain pool dyn.length dyn.chain (min n dyn.length) in (r.0, settle r.1)

-- The loop of `dbuf_get`: the bytes moved. A round moves a byte or more, so `n` rounds are enough.
unfoldable pub dbuf_get : ℕ → Pool → Dbuf → ℕ → Pool × Dbuf × List ℕ
dbuf_get zero pool dyn n = (pool, dyn, [])
dbuf_get (suc fuel) pool dyn n = elim (dbuf_map dyn) [
  | none ↦ (pool, dyn, [])
  | some b ↦
      let chunk = min (length b) n in
      let (pool', dyn') = dbuf_delete pool dyn chunk in
      let (pool'', dyn'', moved) = dbuf_get fuel pool' dyn' (n - chunk) in
      if n == 0 then (pool, dyn, []) else (pool'', dyn'', take chunk b ++ moved)
]

-- The line terminators at the front, and what follows them.
unfoldable pub eols : List ℕ → List ℕ
eols [] = []
eols (c ∷ s) = if is_eol c then c ∷ eols s else []

unfoldable pub past_eols : List ℕ → List ℕ
past_eols [] = []
past_eols (c ∷ s) = if is_eol c then past_eols s else c ∷ s

-- The loop of `dbuf_flush`. When the last buffer goes, the length becomes 0 and the loop ends.
unfoldable pub flush_chain : Pool → ℕ → List Buffer → Pool × Dbuf
flush_chain pool len [] = (pool, record { length = 0; chain = [] })
flush_chain pool len (b ∷ bs) =
    let count = length (eols b.bytes) in
    let left = past_eols b.bytes in
    let onward = flush_chain (dbuf_free pool) (len - count) bs in
    if length left == 0 then onward else (
      pool,
      record {
        length = len - count;
        chain = record { offset = b.offset + count; bytes = left } ∷ bs;
      },
    )

unfoldable pub dbuf_flush : Pool → Dbuf → Pool × Dbuf
dbuf_flush pool dyn = elim dyn.chain [
  | [] ↦ (pool, dyn)
  | b ∷ bs ↦ flush_chain pool dyn.length dyn.chain
]

unfoldable pub line_of : List ℕ → List ℕ
line_of [] = []
line_of (c ∷ s) = if is_eol c then [] else c ∷ line_of s

-- The copying loop of `dbuf_getmsg`: the line, if it ends within `n` bytes.
unfoldable pub copy_line : List Buffer → ℕ → Option (List ℕ)
copy_line [] n = none
copy_line (b ∷ bs) n =
    let window = take n b.bytes in
    let line = line_of window in
    let onward = copy_line bs (n - length line) in
    if n == 0
    then none
    else if ltb (length line) (length window)
    then some line
    else Option.map (λ more. line ++ more) onward

-- The C result is the length of the line, or 0 for `none`.
unfoldable pub dbuf_getmsg : Pool → Dbuf → ℕ → Pool × Dbuf × Option (List ℕ)
dbuf_getmsg pool dyn n =
    let (pool1, dyn1) = dbuf_flush pool dyn in
    let found = copy_line dyn1.chain (min n dyn1.length) in
    if dyn1.length == 0 then (pool1, dyn1, none) else (elim found [
      | none ↦ (pool1, dyn1, none)
      | some line ↦
          let (pool2, dyn2) = dbuf_delete pool1 dyn1 (length line) in
          let (pool3, dyn3) = dbuf_flush pool2 dyn2 in (pool3, dyn3, some line)
    ])
