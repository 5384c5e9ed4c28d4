-- ===== src/Whowas.antt =====
-- ircd/whowas.c: the nick history. A `struct Whowas *` is a number, and `entries` is what the pointers
-- lead to; a linked list is the list of its pointers, from the head on.
pub mod Index
pub mod Chains
pub mod Kept
pub mod Operations
pub mod Reached
use irch.Base.{
  ==_iff, Bool, Bool-cases, List, Option, Option-cases, [], all_below, all_below_sound, ap, arith,
  bit_and, bit_or, bit_xor, codes, dec_lt, drop, drop-append, drop-append_split, drop_ge, false,
  get_elem?, get_elem?-set_ne, get_elem?-set_self, get_or, if◌then◌else◌, inl, inr, leb, leb→le,
  length, length-append, length-drop, length-map, length-replicate, length-set, length-take, ltb,
  ltb→lt, lt→ltb, map, min, none, not, refl, replicate, set, some, suc, sym, tail, take,
  take-append, take-append-drop, take-append_split, take_all, take_ge, tests, true, update,
  update_ne, update_self, zero, ℕ, ℕ_discrete, ◌%◌, ◌&&◌, ◌*◌, ◌++◌, ◌+◌, ◌-◌, ◌/◌, ◌<◌, ◌==◌, ◌^◌,
  ◌||◌, ◌↔◌, ◌∙◌, ◌∷◌, ◌≡◌, ◌≢◌, ◌≤◌, ◌⊎◌,
}
use irch.Chattr.{to_lower}
use irch.Crule.{same_text}

pub record Whowas : Type 0 where
  pub hashv : ℕ
  pub name : List ℕ
  pub username : List ℕ
  pub hostname : List ℕ
  pub realhost : Option (List ℕ)
  pub servername : List ℕ
  pub realname : List ℕ
  pub away : Option (List ℕ)
  pub logoff : ℕ
  pub online : Option ℕ

-- `wwList` with `ww_tail` as the last of the list, `whowashash`, and `cli_whowas` of every client.
-- `fresh` is the next pointer that MyMalloc returns.
pub record History : Type 0 where
  pub entries : ℕ → Whowas
  pub ww_list : List ℕ
  pub ww_alloc : ℕ
  pub whowashash : ℕ → List ℕ
  pub cli_whowas : ℕ → List ℕ
  pub fresh : ℕ

-- What `add_history` reads of a client.
pub record Client : Type 0 where
  pub id : ℕ
  pub name : List ℕ
  pub username : List ℕ
  pub host : List ℕ
  pub realhost : List ℕ
  pub has_hidden_host : Bool
  pub servername : List ℕ
  pub info : List ℕ
  pub away : Option (List ℕ)

-- The loop of `hash_whowas_name`: `hash` and `hash2`.
unfoldable pub hash_loop : ℕ → ℕ → List ℕ → ℕ × ℕ
hash_loop hash hash2 [] = (hash, hash2)
hash_loop hash hash2 (c ∷ name) =
    hash_loop ((hash * 2 + to_lower c) % 2 ^ 32) ((hash2 / 2 + to_lower c) % 2 ^ 32) name

-- With BITS_PER_COL 3, for a name that is not empty.
unfoldable pub hash_whowas_name : List ℕ → ℕ
hash_whowas_name name = let r = hash_loop 0 0 name in bit_and r.0 15 * 2 ^ 3 + bit_and r.1 7

-- A pointer is unlinked from a list.
unfoldable pub unlink : ℕ → List ℕ → List ℕ
unlink i [] = []
unlink i (j ∷ js) = let onward = unlink i js in if i == j then onward else j ∷ onward

unfoldable pub cleaned : History → ℕ → History
cleaned h ww =
    let w = h.entries ww in
    record h {
      cli_whowas = elim w.online [
        | none ↦ h.cli_whowas
        | some c ↦ update h.cli_whowas c (unlink ww (h.cli_whowas c))
      ];
      whowashash = update h.whowashash w.hashv (unlink ww (h.whowashash w.hashv));
      ww_list = unlink ww h.ww_list;
    }

unfoldable pub is_head : ℕ → List ℕ → Bool
is_head ww [] = false
is_head ww (i ∷ is) = ww == i

-- `wwList.ww_list` is never moved on: `none` is a history whose head still points to the structure that
-- was cleaned. What becomes of such a history is not followed.
unfoldable pub whowas_clean : History → ℕ → Option History
whowas_clean h ww = if is_head ww h.ww_list then none else some (cleaned h ww)

unfoldable pub released : History → History
released h = record h { ww_alloc = h.ww_alloc - 1 }

unfoldable pub whowas_free : History → ℕ → Option History
whowas_free h ww = elim (whowas_clean h ww) [ none ↦ none | some h' ↦ some (released h') ]

-- `wwList.ww_tail`
unfoldable pub ww_tail : List ℕ → Option ℕ
ww_tail [] = none
ww_tail (i ∷ is) = elim (ww_tail is) [ none ↦ some i | some j ↦ some j ]

-- The tail's structure is used again.
unfoldable pub reclaim : History → ℕ → Option (History × ℕ)
reclaim h ww = elim (whowas_clean h ww) [ none ↦ none | some h' ↦ some (h', ww) ]

-- `none` is the assertion that fails on an empty list, or a head that is left behind. `max` is
-- FEAT_NICKNAMEHISTORYLENGTH.
unfoldable pub whowas_alloc : ℕ → History → Option (History × ℕ)
whowas_alloc max h =
    if leb max h.ww_alloc
    then (elim (ww_tail h.ww_list) [ none ↦ none | some ww ↦ reclaim h ww ])
    else some (record h { ww_alloc = h.ww_alloc + 1; fresh = h.fresh + 1 }, h.fresh)

-- The loop of `whowas_realloc`; each round takes one from `ww_alloc`.
unfoldable pub realloc_loop : ℕ → ℕ → History → Option History
realloc_loop zero max h = some h
realloc_loop (suc fuel) max h = elim (ww_tail h.ww_list) [
  | none ↦ some h
  | some ww ↦
      let onward : Option History = elim (whowas_free h ww) [
        | none ↦ none
        | some h' ↦ realloc_loop fuel max h'
      ] in
      if ltb max h.ww_alloc then onward else some h
]

unfoldable pub whowas_realloc : ℕ → History → Option History
whowas_realloc max h = realloc_loop h.ww_alloc max h

unfoldable pub whowas_of : ℕ → Client → Bool → Whowas
whowas_of current_time c still_on = record {
  hashv = hash_whowas_name c.name;
  name = c.name;
  username = c.username;
  hostname = c.host;
  realhost = if c.has_hidden_host then some c.realhost else none;
  servername = c.servername;
  realname = c.info;
  away = c.away;
  logoff = current_time;
  online = if still_on then some c.id else none;
}

-- The structure `ww` is filled and linked into the lists.
unfoldable pub link_history : History → ℕ → ℕ → Client → Bool → History
link_history h ww current_time c still_on =
    let w = whowas_of current_time c still_on in
    record h {
      entries = update h.entries ww w;
      cli_whowas =
          if still_on then update h.cli_whowas c.id (ww ∷ h.cli_whowas c.id) else h.cli_whowas;
      ww_list = ww ∷ h.ww_list;
      whowashash = update h.whowashash w.hashv (ww ∷ h.whowashash w.hashv);
    }

unfoldable pub add_history : ℕ → ℕ → History → Client → Bool → Option History
add_history max current_time h c still_on = elim (whowas_alloc max h) [
  | none ↦ none
  | some (h', ww) ↦ some (link_history h' ww current_time c still_on)
]

-- The loop of `off_history`.
unfoldable pub clear_online : (ℕ → Whowas) → List ℕ → ℕ → Whowas
clear_online entries [] = entries
clear_online entries (i ∷ is) =
    clear_online (update entries i (record (entries i) { online = none })) is

unfoldable pub off_history : History → ℕ → History
off_history h client = record h { entries = clear_online h.entries (h.cli_whowas client) }

-- Whether the loop of `get_history` stops at an entry; `limit` is FEAT_KILLCHASETIMELIMIT.
unfoldable pub is_recent : ℕ → ℕ → List ℕ → Whowas → Bool
is_recent current_time limit nick w = same_text nick w.name && ltb current_time (w.logoff + limit)

unfoldable pub first_recent : ℕ → ℕ → List ℕ → (ℕ → Whowas) → List ℕ → Option ℕ
first_recent t limit nick entries [] = none
first_recent t limit nick entries (i ∷ is) =
    let onward = first_recent t limit nick entries is in
    if is_recent t limit nick (entries i) then (entries i).online else onward

unfoldable pub get_history : ℕ → ℕ → History → List ℕ → Option ℕ
get_history t limit h nick =
    first_recent t limit nick h.entries (h.whowashash (hash_whowas_name nick))

unfoldable pub initwhowas : History → History
initwhowas h = record h { whowashash = λ v. [] }
