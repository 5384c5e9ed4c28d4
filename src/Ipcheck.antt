-- ===== src/Ipcheck.antt =====
-- ircd/IPcheck.c: what the registry knows of an IP address, and the chains of its hash tables. A word of
-- an address is its value in host order, so a bucket's number is that of the source with its bytes
-- swapped.
pub mod Address
pub mod Expire
pub mod Connect
use irch.Base.{
  ==_iff, Bool, Bool-cases, List, Option, Option-cases, [], all_below, all_below_sound, ap, arith,
  bit_and, bit_or, bit_xor, codes, dec_lt, drop, drop-append, drop-append_split, drop_ge, false,
  get_elem?, get_elem?-set_ne, get_elem?-set_self, get_or, if◌then◌else◌, inl, inr, leb, leb→le,
  length, length-append, length-drop, length-map, length-replicate, length-set, length-take, ltb,
  ltb→lt, lt→ltb, map, min, none, not, refl, replicate, set, some, suc, sym, tail, take,
  take-append, take-append-drop, take-append_split, take_all, take_ge, tests, true, update,
  update_ne, update_self, zero, ℕ, ℕ_discrete, ◌%◌, ◌&&◌, ◌*◌, ◌++◌, ◌+◌, ◌-◌, ◌/◌, ◌<◌, ◌==◌, ◌^◌,
  ◌||◌, ◌↔◌, ◌∙◌, ◌∷◌, ◌≡◌, ◌≢◌, ◌≤◌, ◌⊎◌,
}

-- struct irc_in_addr
pub record Addr : Type 0 where
  pub w0 : ℕ
  pub w1 : ℕ
  pub w2 : ℕ
  pub w3 : ℕ
  pub w4 : ℕ
  pub w5 : ℕ
  pub w6 : ℕ
  pub w7 : ℕ

-- struct IPTargetEntry
pub record Target : Type 0 where
  pub count : ℕ
  pub targets : List ℕ

-- struct IPRegistryEntry
pub record Entry : Type 0 where
  pub target : Option Target
  pub addr : Addr
  pub last_connect : ℕ
  pub connected : ℕ
  pub attempts : ℕ

-- struct IPRegistry48
pub record Entry48 : Type 0 where
  pub last_connect : ℕ
  pub addr : ℕ × ℕ × ℕ
  pub attempts : ℕ

-- `hashTable` and `hashTable48`.
pub record Registry : Type 0 where
  pub table : ℕ → List Entry
  pub table48 : ℕ → List Entry48

abbrev pub starttargets : ℕ
starttargets = 10

abbrev pub target_delay : ℕ
target_delay = 128

-- NOW
unfoldable pub now : ℕ → ℕ
now current_time = current_time % 65536

-- `CONNECTED_SINCE(x) > k`, a comparison of ints.
unfoldable pub is_since : ℕ → ℕ → ℕ → Bool
is_since current_time x k = ltb (x + k) (now current_time)

unfoldable pub words : Addr → List ℕ
words a = a.w0 ∷ a.w1 ∷ a.w2 ∷ a.w3 ∷ a.w4 ∷ a.w5 ∷ a.w6 ∷ a.w7 ∷ []

-- `irc_in_addr_is_ipv4` of include/res.h
unfoldable pub is_ipv4 : Addr → Bool
is_ipv4 a =
    a.w0 == 0
    && a.w1 == 0
    && a.w2 == 0
    && a.w3 == 0
    && a.w4 == 0
    && ((a.w5 == 0 && not (a.w6 == 0)) || a.w5 == 65535)

-- `irc_in_addr_valid` of include/res.h: `~` on a word that is promoted to int is never 0.
unfoldable pub is_valid : Addr → Bool
is_valid a =
    not (a.w0 == 0)
    || not (a.w1 == a.w0)
    || not (a.w2 == a.w0)
    || not (a.w3 == a.w0)
    || not (a.w4 == a.w0)
    || not (a.w5 == a.w0)
    || not (a.w6 == a.w0)
    || not (a.w7 == a.w0)

-- ip_registry_canonicalize
unfoldable pub canonicalize : Addr → Addr
canonicalize a =
    if is_ipv4 a
    then record { w0 = 0x2002; w1 = a.w6; w2 = a.w7; w3 = 0; w4 = 0; w5 = 0; w6 = 0; w7 = 0 }
    else record a { w4 = 0; w5 = 0; w6 = 0; w7 = 0 }

-- `ipmask_check` of ircd/match.c, as a test.
unfoldable pub ipmask_check : List ℕ → List ℕ → ℕ → Bool
ipmask_check [] mask bits = true
ipmask_check (a ∷ addr) [] bits = true
ipmask_check (a ∷ addr) (m ∷ mask) bits =
    let onward = ipmask_check addr mask (bits - 16) in
    if ltb bits 16
    then bit_xor a m / 2 ^ (16 - bits) == 0
    else if a == m
    then (if bits == 16 then true else onward)
    else false

-- ip_registry_hash
unfoldable pub hash : Addr → ℕ
hash a = bit_and (bit_xor (bit_xor (bit_xor a.w0 a.w1) a.w2) a.w3) 65535

-- `bits` in `ip_registry_find`
unfoldable pub prefix_bits : ℕ → ℕ
prefix_bits w = if w == 0x2002 then 48 else 64

-- Whether the loop of `ip_registry_find` stops at an entry.
unfoldable pub is_hit : Addr → Entry → Bool
is_hit canon e = ipmask_check (words canon) (words e.addr) (prefix_bits canon.w0)

unfoldable pub find_in : Addr → List Entry → Option Entry
find_in canon [] = none
find_in canon (e ∷ es) = let onward = find_in canon es in if is_hit canon e then some e else onward

-- ip_registry_find
unfoldable pub ip_registry_find : Registry → Addr → Option Entry
ip_registry_find r ip = find_in (canonicalize ip) (r.table (hash (canonicalize ip)))

-- A change of the entry that `ip_registry_find` returns.
unfoldable pub change_in : Addr → (Entry → Entry) → List Entry → List Entry
change_in canon f [] = []
change_in canon f (e ∷ es) =
    let onward = change_in canon f es in if is_hit canon e then f e ∷ es else e ∷ onward

unfoldable pub change : Registry → Addr → (Entry → Entry) → Registry
change r ip f =
    let h = hash (canonicalize ip) in
    record r { table = update r.table h (change_in (canonicalize ip) f (r.table h)) }

-- ip_registry_add
unfoldable pub ip_registry_add : Registry → Entry → Registry
ip_registry_add r e = record r { table = update r.table (hash e.addr) (e ∷ r.table (hash e.addr)) }

-- ip_registry_new_entry, with the canonical address
unfoldable pub ip_registry_new_entry : ℕ → Addr → Entry
ip_registry_new_entry current_time canon = record {
  target = none;
  addr = canon;
  last_connect = now current_time;
  connected = 1;
  attempts = 1;
}

-- `count + CONNECTED_SINCE(last_connect) / TARGET_DELAY` in `unsigned int`, where C rounds to 0.
unfoldable pub grown_count : ℕ → ℕ → ℕ → ℕ
grown_count current_time last_connect count =
    if ltb (now current_time) last_connect
    then (count + 2 ^ 32 - (last_connect - now current_time) / target_delay) % 2 ^ 32
    else (count + (now current_time - last_connect) / target_delay) % 2 ^ 32

-- ip_registry_update_free_targets: the entry, and the number.
unfoldable pub update_free_targets : ℕ → Entry → Entry × ℕ
update_free_targets current_time e = elim e.target [
  | none ↦ (e, starttargets)
  | some t ↦
      let grown = grown_count current_time e.last_connect t.count in
      let free_targets = if ltb starttargets grown then starttargets else grown in
      (record e { target = some (record t { count = free_targets }) }, free_targets)
]

-- ip_48_hash
unfoldable pub ip_48_hash : Addr → ℕ
ip_48_hash a = bit_and (bit_xor (bit_xor a.w0 a.w1) a.w2) 65535

unfoldable pub is_hit48 : Addr → Entry48 → Bool
is_hit48 a e = a.w0 == e.addr.0 && a.w1 == e.addr.1 && a.w2 == e.addr.2

unfoldable pub find48_in : Addr → List Entry48 → Option Entry48
find48_in a [] = none
find48_in a (e ∷ es) = let onward = find48_in a es in if is_hit48 a e then some e else onward

unfoldable pub change48_in : Addr → (Entry48 → Entry48) → List Entry48 → List Entry48
change48_in a f [] = []
change48_in a f (e ∷ es) =
    let onward = change48_in a f es in if is_hit48 a e then f e ∷ es else e ∷ onward

-- ip_48_find, whose result the caller changes by `f`: the registry, and the entry then.
unfoldable pub ip_48_find : ℕ → Registry → Addr → (Entry48 → Entry48) → Registry × Entry48
ip_48_find current_time r ip f =
    let idx = ip_48_hash ip in
    let fresh : Entry48 = record {
      last_connect = now current_time;
      addr = (ip.w0, ip.w1, ip.w2);
      attempts = 0;
    } in
    elim (find48_in ip (r.table48 idx)) [
      | none ↦ (record r { table48 = update r.table48 idx (f fresh ∷ r.table48 idx) }, f fresh)
      | some e ↦
          (record r { table48 = update r.table48 idx (change48_in ip f (r.table48 idx)) }, f e)
    ]
