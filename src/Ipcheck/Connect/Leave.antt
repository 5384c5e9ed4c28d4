-- ===== src/Ipcheck/Connect/Leave.antt =====
-- ircd/IPcheck.c: the number of clients of an address after a remote client connects and after a client
-- disconnects.
use mathlib.Core.Option
use irch.Base.{
  Bool, Bool-cases, Option-cases, ap, arith, false, if◌then◌else◌, inl, inr, ltb, lt→ltb, refl,
  some, true, ℕ, ◌%◌, ◌*◌, ◌+◌, ◌-◌, ◌<◌, ◌==◌, ◌∙◌, ◌≡◌,
}
use irch.Ipcheck.{
  Addr, Entry, Registry, is_ipv4, is_valid, canonicalize, ip_registry_find, ip_registry_new_entry,
  ip_48_find, is_since,
}
use irch.Ipcheck.Connect.{
  known_remote, Config, touch48, ip_registry_check_local, check_remote_entry,
  ip_registry_check_remote, Leaver, last_leaves, keep_targets, disconnect_entry,
  ip_registry_disconnect, ip_registry_count, saturate,
}
use irch.Ipcheck.Connect.Find.{find-change, find-add}
use irch.Ipcheck.Connect.Count.{
  IsCounted, update_keeps, count_found, count_none, count48, ip_registry_check_local-count,
}

check_remote_entry_count :
    (cfg : Config) (t : ℕ) (is_burst : Bool) (e : Entry)
    → e.connected < 65536
    → IsCounted
        (check_remote_entry cfg t is_burst e).0
        e.addr
        (if (check_remote_entry cfg t is_burst e).1 then e.connected + 1 else 0)
unfolding check_remote_entry
check_remote_entry_count cfg t is_burst e h =
    let c = (e.connected + 1) % 65536 in
    let attempts0 = if is_since t e.last_connect cfg.clone_period then 0 else e.attempts in
    let k = update_keeps t (record e { connected = c; attempts = saturate 256 attempts0 }) in
    let s = k.same in
    let n = k.count in
    elim (Bool-cases (c == 0)) [
      | inl z ↦ rw (check_remote_entry, z) (record { same = refl; count = ground arith })
      | inr z ↦ elim (Bool-cases is_burst) [
        | inl b ↦ rw (check_remote_entry, z, b) (record { same = refl; count = ground arith })
        | inr b ↦ rw (check_remote_entry, z, b) (record { same = s; count = ground arith })
      ]
    ]

remote_known :
    (cfg : Config) (t : ℕ) (r : Registry) (ip : Addr) (is_burst : Bool)
    → ip_registry_count r ip < 65536
    → ip_registry_count (known_remote cfg t r ip is_burst).0 ip
      ≡ (if (known_remote cfg t r ip is_burst).1 then ip_registry_count r ip + 1 else 0)
unfolding known_remote ip_registry_new_entry
remote_known cfg t r ip is_burst h = elim (Option-cases (ip_registry_find r ip)) [
  | inl e ↦
      let zero = count_none r ip e in
      let fresh = ip_registry_new_entry t (canonicalize ip) in
      elim (Bool-cases is_burst) [
        | inl b ↦
            rw (known_remote, e, b)
              (count_found _ ip _ (find-add r ip (record fresh { attempts = 0 }) refl)
                ∙ rw zero refl)
        | inr b ↦
            rw (known_remote, e, b) (count_found _ ip _ (find-add r ip fresh refl) ∙ rw zero refl)
      ]
  | inr (x, e) ↦
      let now_count = count_found r ip x e in
      let k = check_remote_entry_count cfg t is_burst x (omega arith) in
      let found = find-change r ip (λ _. (check_remote_entry cfg t is_burst x).0) x e k.same in
      rw (known_remote, e) (count_found _ ip _ found ∙ k.count ∙ rw now_count refl)
]

-- With a count that fits in 16 bits, a remote client with a valid address that is accepted adds one
-- to the count of its address, and one that is refused sets the count to 0.
pub ip_registry_check_remote-count :
    (cfg : Config) (t : ℕ) (r : Registry) (ip : Addr) (is_burst : Bool)
    → is_valid ip ≡ true
    → ip_registry_count r ip < 65536
    → ip_registry_count (ip_registry_check_remote cfg t r ip is_burst).0 ip
      ≡ (if (ip_registry_check_remote cfg t r ip is_burst).1 then ip_registry_count r ip + 1 else 0)
unfolding ip_registry_check_remote
ip_registry_check_remote-count cfg t r ip is_burst valid h = elim (Bool-cases (is_ipv4 ip)) [
  | inl v ↦ rw (ip_registry_check_remote, valid, v) (remote_known cfg t r ip is_burst h)
  | inr v ↦
      let same = count48 cfg t r ip in
      let k = remote_known cfg t (ip_48_find t r ip (touch48 cfg t)).0 ip is_burst (omega arith) in
      rw (ip_registry_check_remote, valid, v) (rw same at k)
]

IsCounted-if :
    (b : Bool) (x y : Entry) (a : Addr) (n : ℕ)
    → IsCounted x a n
    → IsCounted y a n
    → IsCounted (if b then x else y) a n
IsCounted-if true x y a n h k = h
IsCounted-if false x y a n h k = k

last_leaves_count :
    (cfg : Config) (t : ℕ) (e : Entry) → IsCounted (last_leaves cfg t e) e.addr e.connected
unfolding last_leaves
last_leaves_count cfg t e =
    elim (Bool-cases (is_since t e.last_connect (cfg.clone_limit * cfg.clone_period))) [
      | inl b ↦
          let k = update_keeps t (record e { attempts = 0 }) in
          rw (last_leaves, b) (record { same = k.same; count = k.count })
      | inr b ↦
          let k = update_keeps t e in
          rw (last_leaves, b) (record { same = k.same; count = k.count })
    ]

keep_targets_count :
    (t : ℕ) (c : Leaver) (e : Entry) (a : Addr) (n : ℕ)
    → IsCounted e a n
    → IsCounted (keep_targets t c e) a n
unfolding keep_targets
keep_targets_count t c e a n k = record { same = k.same; count = k.count }

disconnect_entry_count :
    (cfg : Config) (t : ℕ) (c : Leaver) (e : Entry)
    → IsCounted (disconnect_entry cfg t c e) e.addr (e.connected - 1)
unfolding disconnect_entry
disconnect_entry_count cfg t c e =
    let e1 : Entry = record e { connected = e.connected - 1 } in
    let e2 = if e1.connected == 0 then last_leaves cfg t e1 else e1 in
    let k : IsCounted e2 e.addr (e.connected - 1) =
      IsCounted-if (e1.connected == 0) _ _ e.addr (e.connected - 1) (last_leaves_count cfg t e1)
        (record { same = refl; count = refl }) in
    IsCounted-if c.my_connect _ _ e.addr (e.connected - 1) (keep_targets_count t c e2 e.addr _ k) k

-- A client with a valid address of which clients are counted takes one from the count when it
-- leaves; no assertion fails.
pub ip_registry_disconnect-count :
    (cfg : Config) (t : ℕ) (r : Registry) (c : Leaver)
    → is_valid c.ip ≡ true
    → 0 < ip_registry_count r c.ip
    → Option.map (λ (r' : Registry). ip_registry_count r' c.ip) (ip_registry_disconnect cfg t r c)
      ≡ some (ip_registry_count r c.ip - 1)
unfolding ip_registry_disconnect
ip_registry_disconnect-count cfg t r c valid h = elim (Option-cases (ip_registry_find r c.ip)) [
  | inl e ↦ let zero = count_none r c.ip e in absurd (omega arith)
  | inr (x, e) ↦
      let now_count = count_found r c.ip x e in
      let k = disconnect_entry_count cfg t c x in
      let found = find-change r c.ip (λ _. disconnect_entry cfg t c x) x e k.same in
      let pos : ltb 0 x.connected ≡ true = lt→ltb _ _ (omega arith) in
      rw (ip_registry_disconnect, valid, e, pos)
        (ap some (count_found _ c.ip _ found ∙ k.count ∙ rw now_count refl))
]

-- With a count that fits in 16 bits, a local client with a valid address that has been accepted and
-- then leaves, at whatever times, brings the count back to what it was.
pub ip_registry_disconnect-check_local :
    (cfg : Config) (t t' : ℕ) (r : Registry) (c : Leaver)
    → is_valid c.ip ≡ true
    → ip_registry_count r c.ip < 65536
    → (ip_registry_check_local cfg t r c.ip).accepted ≡ true
    → Option.map
        (λ (r' : Registry). ip_registry_count r' c.ip)
        (ip_registry_disconnect cfg t' (ip_registry_check_local cfg t r c.ip).registry c)
      ≡ some (ip_registry_count r c.ip)
ip_registry_disconnect-check_local cfg t t' r c valid h ok =
    let (k, _) = ip_registry_check_local-count cfg t r c.ip h in
    let k' : ip_registry_count (ip_registry_check_local cfg t r c.ip).registry c.ip
        ≡ ip_registry_count r c.ip + 1 =
      k ∙ rw ok refl in
    ip_registry_disconnect-count cfg t' (ip_registry_check_local cfg t r c.ip).registry c valid
      (omega arith)
    ∙ ap some (omega arith)
