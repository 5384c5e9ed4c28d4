-- ===== src/Dbuf/Queue.antt =====
-- ircd/dbuf.c: the operations on a buffer chain refine those on a plain queue of bytes.
use mathlib.Core.List.{append_assoc, append-nil}
use irch.Base.{
  Option, Option-cases, none, Bool, Bool-cases, List, [], ap, arith, drop, false, if◌then◌else◌,
  inl, inr, length, length-append, length-drop, length-take, lt→ltb, refl, some, suc, sym, take,
  take-append-drop, true, zero, ℕ, ◌%◌, ◌*◌, ◌++◌, ◌+◌, ◌-◌, ◌<◌, ◌==◌, ◌^◌, ◌∙◌, ◌∷◌, ◌≡◌, ◌≤◌,
}
use irch.Dbuf.{
  dbuf_size, Buffer, Dbuf, Pool, Config, Grown, dbuf_alloc, dbuf_malloc_error, space, fill,
  fill_last, fill_all, alloc_or_flush, grow, filled, dbuf_put,
}

-- The bytes of a chain, in order.
unfoldable pub bytes_of : List Buffer → List ℕ
bytes_of [] = []
bytes_of (b ∷ bs) = b.bytes ++ bytes_of bs

unfoldable pub contents : Dbuf → List ℕ
contents dyn = bytes_of dyn.chain

-- No buffer is empty, and none goes beyond its data.
abbrev pub AllFit : List Buffer → Type 0
AllFit [] = Unit
AllFit (b ∷ bs) = (0 < length b.bytes) × (b.offset + length b.bytes ≤ dbuf_size) × AllFit bs

pub record IsValid (dyn : Dbuf) : Type 0 where
  pub counted : dyn.length ≡ length (contents dyn)
  pub fit : AllFit dyn.chain
  pub word : dyn.length < 2 ^ 32

bytes_of-append : (a b : List Buffer) → bytes_of (a ++ b) ≡ bytes_of a ++ bytes_of b
unfolding bytes_of
bytes_of-append [] b = refl
bytes_of-append (x ∷ a) b =
    rw (bytes_of-append a b) (sym (append_assoc x.bytes (bytes_of a) (bytes_of b)))

AllFit-append : (a b : List Buffer) → AllFit a → AllFit b → AllFit (a ++ b)
AllFit-append [] b h k = k
AllFit-append (x ∷ a) b (h0, h1, h2) k = (h0, h1, AllFit-append a b h2 k)

take-drop : (n : ℕ) (s : List ℕ) → take n s ++ drop n s ≡ s
take-drop n s = take-append-drop n s

fill_bytes : (b : Buffer) (buf : List ℕ) → (fill b buf).bytes ++ drop (space b) buf ≡ b.bytes ++ buf
unfolding fill
fill_bytes b buf =
    append_assoc b.bytes (take (space b) buf) (drop (space b) buf)
    ∙ ap (λ s. b.bytes ++ s) (take-drop (space b) buf)

fill_last_bytes :
    (bs : List Buffer) (buf : List ℕ)
    → bytes_of (fill_last bs buf).0 ++ (fill_last bs buf).1 ≡ bytes_of bs ++ buf
unfolding fill_last bytes_of
fill_last_bytes [] buf = refl
fill_last_bytes (b ∷ []) buf = simp (append-nil) (fill_bytes b buf)
fill_last_bytes (b ∷ c ∷ bs) buf =
    append_assoc b.bytes _ _
    ∙ ap (λ s. b.bytes ++ s) (fill_last_bytes (c ∷ bs) buf)
    ∙ sym (append_assoc b.bytes (bytes_of (c ∷ bs)) buf)

fill_last_fit : (bs : List Buffer) (buf : List ℕ) → AllFit bs → AllFit (fill_last bs buf).0
unfolding fill_last fill space
fill_last_fit [] buf h = tt
fill_last_fit (b ∷ []) buf (h0, h1, h2) =
    omega (arith, length-append b.bytes (take (space b) buf), length-take (space b) buf)
fill_last_fit (b ∷ c ∷ bs) buf (h0, h1, h2) = (h0, h1, fill_last_fit (c ∷ bs) buf h2)

fill_all_empty : (buf : List ℕ) → fill_all [] buf ≡ ([], buf)
unfolding fill_all
fill_all_empty buf = refl

-- The flusher is on and clears the queue that is being filled.
abbrev pub Clears : Config → Type 0
Clears cfg = (cfg.ferguson_flusher ≡ true) × (pool : Pool) × ((cfg.flush_connections pool).1 ≡ true)

alloc-Clears : (cfg : Config) (pool : Pool) → alloc_or_flush cfg pool ≡ none → Clears cfg
unfolding alloc_or_flush
alloc-Clears cfg pool h = elim (Option-cases (dbuf_alloc cfg pool)) [
  | inr (p, e) ↦ absurd (let no = rw (e, alloc_or_flush) at h in cc)
  | inl e ↦ elim (Bool-cases cfg.ferguson_flusher) [
    | inr off ↦ absurd (let no = rw (e, off, alloc_or_flush) at h in cc)
    | inl on ↦ elim (Bool-cases (cfg.flush_connections pool).1) [
      | inl c ↦ (on, pool, c)
      | inr c ↦ elim (Option-cases (dbuf_alloc cfg (cfg.flush_connections pool).0)) [
        | inl f ↦ absurd (let no = rw (e, on, c, f, alloc_or_flush) at h in cc)
        | inr (p, f) ↦ absurd (let no = rw (e, on, c, f, alloc_or_flush) at h in cc)
      ]
    ]
  ]
]

-- `grow` either stores everything in new buffers that fit, or says that it did not.
abbrev GrowMeans : Config → List ℕ → Option Grown → Type 0
GrowMeans cfg buf none = Clears cfg
GrowMeans cfg buf (some g) = g.stored ≡ true → (bytes_of g.buffers ≡ buf) × AllFit g.buffers

grown_first :
    (cfg : Config) (c : ℕ) (buf : List ℕ) (onward : Option Grown)
    → GrowMeans cfg (drop dbuf_size (c ∷ buf)) onward
    → GrowMeans cfg (c ∷ buf) (elim onward [
      | none ↦ none
      | some g ↦ some (record g {
        buffers = record { offset = 0; bytes = take dbuf_size (c ∷ buf) } ∷ g.buffers;
      })
    ])
unfolding bytes_of
grown_first cfg c buf none h = h
grown_first cfg c buf (some g) h = λ stored.
    let (e, f) = h stored in
    (
      rw e (take-drop dbuf_size (c ∷ buf)),
      (omega arith, omega (arith, length-take dbuf_size (c ∷ buf)), f),
    )

grow_means :
    (fuel : ℕ) (cfg : Config) (pool : Pool) (buf : List ℕ)
    → GrowMeans cfg buf (grow fuel cfg pool buf)
unfolding grow bytes_of
grow_means fuel cfg pool [] = λ h. (refl, tt)
grow_means zero cfg pool (c ∷ buf) = λ h. cc
grow_means (suc fuel) cfg pool (c ∷ buf) = elim (Option-cases (alloc_or_flush cfg pool)) [
  | inl e ↦ rw (grow, e) (alloc-Clears cfg pool e)
  | inr ((pool', ok), e) ↦ elim (Bool-cases ok) [
    | inr refused ↦ rw (grow, e, refused) (λ h. cc)
    | inl taken_one ↦
        rw (grow, e, taken_one)
          (grown_first cfg c buf (grow fuel cfg pool' (drop dbuf_size (c ∷ buf)))
            (grow_means fuel cfg pool' (drop dbuf_size (c ∷ buf))))
  ]
]

-- With everything stored, the queue holds what it held, then the new bytes.
empty_chain : (bs : List Buffer) → AllFit bs → length (bytes_of bs) ≡ 0 → bs ≡ []
unfolding bytes_of
empty_chain [] h e = refl
empty_chain (b ∷ bs) (h0, h1, h2) e = absurd (omega (arith, length-append b.bytes (bytes_of bs)))

filled_bytes :
    (dyn : Dbuf) (buf : List ℕ)
    → IsValid dyn
    → (bytes_of (filled dyn buf).0 ++ (filled dyn buf).1 ≡ contents dyn ++ buf)
      × AllFit (filled dyn buf).0
unfolding filled contents bytes_of
filled_bytes dyn buf v = elim (Bool-cases (dyn.length == 0)) [
  | inl e ↦
      let none_left = empty_chain dyn.chain v.fit (ground arith) in
      rw (e, none_left, fill_all_empty buf) (refl, tt)
  | inr e ↦ rw e (fill_last_bytes dyn.chain buf, fill_last_fit dyn.chain buf v.fit)
]

abbrev empty : Dbuf
empty = record { length = 0; chain = [] }

empty-IsValid : IsValid empty
unfolding contents bytes_of
empty-IsValid = record { counted = refl; fit = tt; word = omega arith }

-- What `dbuf_put` has to leave of a queue and `buf`.
abbrev pub IsPut : Config → Dbuf → List ℕ → Option (Pool × Dbuf × Bool) → Type 0
IsPut cfg dyn buf none = Clears cfg
IsPut cfg dyn buf (some (pool, after, ok)) =
    IsValid after × (contents after ≡ (if ok then contents dyn ++ buf else []))

IsPut-grown :
    (cfg : Config) (dyn : Dbuf) (buf : List ℕ) (g : Option Grown)
    → IsValid dyn
    → dyn.length + length buf < 2 ^ 32
    → GrowMeans cfg (filled dyn buf).1 g
    → IsPut cfg dyn buf (elim g [
      | none ↦ none
      | some g ↦
          let chain = (filled dyn buf).0 ++ g.buffers in
          let failed = dbuf_malloc_error g.pool chain in
          some (
            if g.stored
            then (
              g.pool,
              record { length = (dyn.length + length buf) % 2 ^ 32; chain = chain },
              true,
            )
            else (failed.0, failed.1, false))
    ])
unfolding contents dbuf_malloc_error
IsPut-grown cfg dyn buf none v room h = h
IsPut-grown cfg dyn buf (some g) v room h = elim (Bool-cases g.stored) [
  | inr e ↦ rw e (empty-IsValid, unfold bytes_of in refl)
  | inl e ↦
      let (kept, fit) = filled_bytes dyn buf v in
      let (new, new_fit) = h e in
      let all : bytes_of ((filled dyn buf).0 ++ g.buffers) ≡ contents dyn ++ buf =
        bytes_of-append (filled dyn buf).0 g.buffers ∙ rw new kept in
      rw e (
        record {
          counted = omega (
            arith,
            ap (λ (s : List ℕ). length s) all,
            length-append (contents dyn) buf,
            v.counted,
          );
          fit = AllFit-append (filled dyn buf).0 g.buffers fit new_fit;
          word = omega arith;
        },
        all,
      )
]

-- On a well-formed queue whose new length fits in 32 bits, `dbuf_put` appends the bytes, or it
-- fails and leaves the queue empty, and the queue is well-formed again; only where the flusher is on and
-- `flush_connections` clears the queue that is being filled may it do something else.
pub dbuf_put-contents :
    (cfg : Config) (pool : Pool) (dyn : Dbuf) (buf : List ℕ)
    → IsValid dyn
    → dyn.length + length buf < 2 ^ 32
    → IsPut cfg dyn buf (dbuf_put cfg pool dyn buf)
unfolding dbuf_put
dbuf_put-contents cfg pool dyn buf v room =
    let f = filled dyn buf in
    IsPut-grown cfg dyn buf (grow (length f.1) cfg pool f.1) v room
      (grow_means (length f.1) cfg pool f.1)

abbrev taken : Pool → Pool
taken pool = record pool { free = pool.free - 1; used_count = pool.used_count + 1 }

from_free : (cfg : Config) (pool : Pool) → 0 < pool.free → dbuf_alloc cfg pool ≡ some (taken pool)
unfolding dbuf_alloc
from_free cfg pool h = let p = lt→ltb 0 pool.free h in rw p

alloc_free :
    (cfg : Config) (pool : Pool) → 0 < pool.free → alloc_or_flush cfg pool ≡ some (taken pool, true)
unfolding alloc_or_flush
alloc_free cfg pool h = rw (from_free cfg pool h, alloc_or_flush)

fill_last_left : (bs : List Buffer) (buf : List ℕ) → length (fill_last bs buf).1 ≤ length buf
unfolding fill_last
fill_last_left [] buf = omega arith
fill_last_left (b ∷ []) buf = omega (arith, length-drop (space b) buf)
fill_last_left (b ∷ c ∷ bs) buf = fill_last_left (c ∷ bs) buf

fill_all_left : (bs : List Buffer) (buf : List ℕ) → length (fill_all bs buf).1 ≤ length buf
unfolding fill_all
fill_all_left [] buf = omega arith
fill_all_left (b ∷ bs) buf =
    omega (arith, fill_all_left bs (drop (space b) buf), length-drop (space b) buf)

filled_left : (dyn : Dbuf) (buf : List ℕ) → length (filled dyn buf).1 ≤ length buf
unfolding filled
filled_left dyn buf = elim (Bool-cases (dyn.length == 0)) [
  | inl e ↦ rw e (fill_all_left dyn.chain buf)
  | inr e ↦ rw e (fill_last_left dyn.chain buf)
]

grow_room :
    (fuel : ℕ) (cfg : Config) (pool : Pool) (buf : List ℕ)
    → length buf ≤ fuel
    → length buf ≤ pool.free * dbuf_size
    → (g : Grown) × (grow fuel cfg pool buf ≡ some g) × (g.stored ≡ true)
unfolding grow
grow_room fuel cfg pool [] enough room =
    (record { pool = pool; buffers = []; stored = true }, refl, refl)
grow_room zero cfg pool (c ∷ buf) enough room = absurd (omega arith)
grow_room (suc fuel) cfg pool (c ∷ buf) enough room =
    let less = length-drop dbuf_size (c ∷ buf) in
    let e = alloc_free cfg pool (omega arith) in
    let (g, onward, stored) =
      grow_room fuel cfg (taken pool) (drop dbuf_size (c ∷ buf)) (omega arith) (omega arith) in
    let here : Buffer = record { offset = 0; bytes = take dbuf_size (c ∷ buf) } in
    (record g { buffers = here ∷ g.buffers }, rw (grow, e, onward) refl, stored)

-- `dbuf_put` succeeds if the buffers of the free list alone have room for the bytes.
pub dbuf_put-room :
    (cfg : Config) (pool : Pool) (dyn : Dbuf) (buf : List ℕ)
    → length buf ≤ pool.free * dbuf_size
    → (pool' : Pool) × (after : Dbuf) × (dbuf_put cfg pool dyn buf ≡ some (pool', after, true))
unfolding dbuf_put
dbuf_put-room cfg pool dyn buf room =
    let f = filled dyn buf in
    let (g, e, stored) =
      grow_room (length f.1) cfg pool f.1 (omega arith) (omega (arith, filled_left dyn buf)) in
    let after : Dbuf = record {
      length = (dyn.length + length buf) % 2 ^ 32;
      chain = f.0 ++ g.buffers;
    } in
    (g.pool, after, rw (dbuf_put, e, stored) refl)
