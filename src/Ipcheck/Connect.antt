-- ===== src/Ipcheck/Connect.antt =====
-- ircd/IPcheck.c: clients that connect and disconnect.
pub mod Find
pub mod Count
pub mod Leave
use irch.Base.{
  ==_iff, Bool, Bool-cases, List, Option, Option-cases, [], all_below, all_below_sound, ap, arith,
  bit_and, bit_or, bit_xor, codes, dec_lt, drop, drop-append, drop-append_split, drop_ge, false,
  get_elem?, get_elem?-set_ne, get_elem?-set_self, get_or, if◌then◌else◌, inl, inr, leb, leb→le,
  length, length-append, length-drop, length-map, length-replicate, length-set, length-take, ltb,
  ltb→lt, lt→ltb, map, min, none, not, refl, replicate, set, some, suc, sym, tail, take,
  take-append, take-append-drop, take-append_split, take_all, take_ge, tests, true, update,
  update_ne, update_self, zero, ℕ, ℕ_discrete, ◌%◌, ◌&&◌, ◌*◌, ◌++◌, ◌+◌, ◌-◌, ◌/◌, ◌<◌, ◌==◌, ◌^◌,
  ◌||◌, ◌↔◌, ◌∙◌, ◌∷◌, ◌≡◌, ◌≢◌, ◌≤◌, ◌⊎◌,
}
use irch.Ipcheck.{
  Addr, Target, Entry, Entry48, Registry, starttargets, target_delay, now, is_since, is_ipv4,
  is_valid, canonicalize, ip_registry_find, change, ip_registry_add, ip_registry_new_entry,
  update_free_targets, ip_48_find,
}

-- FEAT_IPCHECK_..., and `cli_since(&me)`.
pub record Config : Type 0 where
  pub clone_limit : ℕ
  pub clone_period : ℕ
  pub clone48_limit : ℕ
  pub clone48_period : ℕ
  pub clone_delay : ℕ
  pub since_me : ℕ

-- The result, and `CurrentTime - *next_target_out` if that is set.
pub record Outcome : Type 0 where
  pub registry : Registry
  pub accepted : Bool
  pub next_target : Option ℕ

-- `++` on an unsigned integer below `size`, taken back if it gives 0.
unfoldable pub saturate : ℕ → ℕ → ℕ
saturate size n = let n' = (n + 1) % size in if n' == 0 then (n' + size - 1) % size else n'

-- `--` that is taken back if it gives 0.
unfoldable pub decrement : ℕ → ℕ → ℕ
decrement size n = let n' = (n + size - 1) % size in if n' == 0 then n' + 1 else n'

unfoldable pub touch48 : Config → ℕ → Entry48 → Entry48
touch48 cfg t e = record e {
  last_connect = now t;
  attempts =
      saturate 65536 (if is_since t e.last_connect cfg.clone48_period then 0 else e.attempts);
}

-- `CurrentTime - cli_since(&me) > IPCHECK_CLONE_DELAY`
unfoldable pub is_throttling : Config → ℕ → Bool
is_throttling cfg t = ltb (cfg.since_me + cfg.clone_delay) t

-- What the rejection by the limit for a /48 does to the entry: the counter is counted up and, whether
-- or not it overflows, down again.
unfoldable pub reject48 : ℕ → Entry → Entry
reject48 t e =
    let c = (e.connected + 1) % 65536 in
    record e { last_connect = now t; connected = (c + 65535) % 65536 }

unfoldable pub rejected : Registry → Outcome
rejected r = record { registry = r; accepted = false; next_target = none }

-- `ip_registry_check_local` on an entry: the entry, and the rest of the outcome.
unfoldable pub check_entry : Config → ℕ → Entry → Entry × Bool × Option ℕ
check_entry cfg t e =
    let c = (e.connected + 1) % 65536 in
    let attempts0 = if is_since t e.last_connect cfg.clone_period then 0 else e.attempts in
    let (e1, free_targets) =
      update_free_targets t (record e { connected = c; attempts = attempts0 }) in
    let e2 = record e1 { last_connect = now t; attempts = saturate 256 attempts0 } in
    if c == 0
    then (record e { connected = (c + 65535) % 65536 }, false, none)
    else if ltb e2.attempts cfg.clone_limit
    then (e2, true, some ((target_delay * free_targets + 2 ^ 32 - 1) % 2 ^ 32))
    else if is_throttling cfg t
    then (record e2 { connected = (c + 65535) % 65536 }, false, none)
    else (e2, true, none)

unfoldable pub check_known : Config → ℕ → Registry → Addr → Outcome
check_known cfg t r ip = elim (ip_registry_find r ip) [
  | none ↦ record {
    registry = ip_registry_add r (ip_registry_new_entry t (canonicalize ip));
    accepted = true;
    next_target = none;
  }
  | some e ↦
      let x = check_entry cfg t e in
      record { registry = change r ip (λ _. x.0); accepted = x.1; next_target = x.2 }
]

unfoldable pub ip_registry_check_local : Config → ℕ → Registry → Addr → Outcome
ip_registry_check_local cfg t r ip =
    let (r48, e48) = ip_48_find t r ip (touch48 cfg t) in
    if is_ipv4 ip
    then check_known cfg t r ip
    else if leb cfg.clone48_limit e48.attempts && is_throttling cfg t
    then rejected (change r48 ip (reject48 t))
    else check_known cfg t r48 ip

-- `ip_registry_check_remote` on an entry: the entry, and whether the client is accepted.
unfoldable pub check_remote_entry : Config → ℕ → Bool → Entry → Entry × Bool
check_remote_entry cfg t is_burst e =
    let c = (e.connected + 1) % 65536 in
    let attempts0 = if is_since t e.last_connect cfg.clone_period then 0 else e.attempts in
    let e1 : Entry = record e { connected = c; attempts = attempts0 } in
    let e2 = record (update_free_targets t (record e1 { attempts = saturate 256 attempts0 })).0 {
      last_connect = now t;
    } in
    if c == 0
    then (record e { connected = c }, false)
    else if is_burst
    then (e1, true)
    else (e2, true)

unfoldable pub known_remote : Config → ℕ → Registry → Addr → Bool → Registry × Bool
known_remote cfg t r ip is_burst =
    let fresh = ip_registry_new_entry t (canonicalize ip) in
    elim (ip_registry_find r ip) [
      | none ↦ (ip_registry_add r (if is_burst then record fresh { attempts = 0 } else fresh), true)
      | some e ↦ let x = check_remote_entry cfg t is_burst e in (change r ip (λ _. x.0), x.1)
    ]

unfoldable pub ip_registry_check_remote : Config → ℕ → Registry → Addr → Bool → Registry × Bool
ip_registry_check_remote cfg t r ip is_burst =
    let r48 = (ip_48_find t r ip (touch48 cfg t)).0 in
    if not (is_valid ip)
    then (r, true)
    else if is_ipv4 ip
    then known_remote cfg t r ip is_burst
    else known_remote cfg t r48 ip is_burst

-- `none` is an assertion that fails.
unfoldable pub ip_registry_connect_fail : ℕ → Registry → Addr → Bool → Option Registry
ip_registry_connect_fail t r ip disconnect =
    let fail48 = λ (e : Entry48). record e { attempts = decrement 65536 e.attempts } in
    let r' = if is_ipv4 ip then r else (ip_48_find t r ip fail48).0 in
    elim (ip_registry_find r' ip) [
      | none ↦ some r'
      | some e ↦
          let e1 : Entry = record e { attempts = decrement 256 e.attempts } in
          if not disconnect
          then some (change r' ip (λ _. e1))
          else if ltb 0 e.connected
          then some (change r' ip (λ _. record e1 { connected = e1.connected - 1 }))
          else none
    ]

-- What `ip_registry_connect_succeeded` copies to the client, and the number of free targets that its
-- notice tells.
unfoldable pub ip_registry_connect_succeeded : Registry → Addr → Option (Option (List ℕ) × ℕ)
ip_registry_connect_succeeded r ip = elim (ip_registry_find r ip) [
  | none ↦ none
  | some e ↦
      some (elim e.target [ none ↦ (none, starttargets) | some g ↦ (some g.targets, g.count) ])
]

-- What `ip_registry_disconnect` reads of a client.
pub record Leaver : Type 0 where
  pub ip : Addr
  pub my_connect : Bool
  pub targets : List ℕ
  pub nexttarget : ℕ
  pub firsttime : ℕ

-- The free targets that a local client leaves, in `unsigned int`.
unfoldable pub left_targets : ℕ → Leaver → ℕ
left_targets t c =
    let base = if ltb c.nexttarget t then ((t - c.nexttarget) / target_delay + 1) % 2 ^ 32 else 0 in
    if ltb (c.firsttime + 600) t
    then (base + (t - c.firsttime - 600) / target_delay) % 2 ^ 32
    else base

-- The last client of an address leaves.
unfoldable pub last_leaves : Config → ℕ → Entry → Entry
last_leaves cfg t e =
    let e1 : Entry =
      if is_since t e.last_connect (cfg.clone_limit * cfg.clone_period)
      then record e { attempts = 0 }
      else e in
    record (update_free_targets t e1).0 { last_connect = now t }

unfoldable pub keep_targets : ℕ → Leaver → Entry → Entry
keep_targets t c e =
    let kept : ℕ = elim e.target [ none ↦ starttargets | some g ↦ g.count ] in
    let free_targets = left_targets t c in
    record e {
      target = some (record {
        count = if ltb free_targets kept then free_targets else kept;
        targets = c.targets;
      });
    }

unfoldable pub disconnect_entry : Config → ℕ → Leaver → Entry → Entry
disconnect_entry cfg t c e =
    let e1 : Entry = record e { connected = e.connected - 1 } in
    let e2 = if e1.connected == 0 then last_leaves cfg t e1 else e1 in
    if c.my_connect then keep_targets t c e2 else e2

-- `none` is an assertion that fails.
unfoldable pub ip_registry_disconnect : Config → ℕ → Registry → Leaver → Option Registry
ip_registry_disconnect cfg t r c =
    if not (is_valid c.ip) then some r else (elim (ip_registry_find r c.ip) [
      | none ↦ none
      | some e ↦
          if ltb 0 e.connected then some (change r c.ip (λ _. disconnect_entry cfg t c e)) else none
    ])

-- ip_registry_count
unfoldable pub ip_registry_count : Registry → Addr → ℕ
ip_registry_count r ip = elim (ip_registry_find r ip) [ none ↦ 0 | some e ↦ e.connected ]
