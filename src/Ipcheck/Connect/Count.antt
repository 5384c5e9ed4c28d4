-- ===== src/Ipcheck/Connect/Count.antt =====
-- ircd/IPcheck.c: the number of clients of an address.
use irch.Base.{
  Bool-cases, Option-cases, arith, if◌then◌else◌, inl, inr, leb, ltb, none, refl, some, sym, ℕ, ◌%◌,
  ◌&&◌, ◌+◌, ◌<◌, ◌==◌, ◌∙◌, ◌≡◌,
}
use irch.Ipcheck.{
  Addr, Entry, Registry, is_ipv4, canonicalize, ip_registry_find, change, ip_registry_new_entry,
  update_free_targets, ip_48_find, is_since,
}
use irch.Ipcheck.Connect.{
  Config, Outcome, touch48, is_throttling, reject48, rejected, check_entry, check_known,
  ip_registry_check_local, ip_registry_count, saturate,
}
use irch.Ipcheck.Connect.Find.{find-change-none, find-change, find-add, find-find48}

-- The entry's address and count.
pub record IsCounted (e : Entry) (addr : Addr) (n : ℕ) : Type 0 where
  pub same : e.addr ≡ addr
  pub count : e.connected ≡ n

pub update_keeps : (t : ℕ) (e : Entry) → IsCounted (update_free_targets t e).0 e.addr e.connected
unfolding update_free_targets
update_keeps t e = elim (Option-cases e.target) [
  | inl h ↦ rw h (record { same = refl; count = refl })
  | inr (g, h) ↦ rw h (record { same = refl; count = refl })
]

check_entry_count :
    (cfg : Config) (t : ℕ) (e : Entry)
    → e.connected < 65536
    → IsCounted
        (check_entry cfg t e).0
        e.addr
        (if (check_entry cfg t e).1 then e.connected + 1 else e.connected)
      × ((check_entry cfg t e).0.connected < 65536)
unfolding check_entry
check_entry_count cfg t e h =
    let c = (e.connected + 1) % 65536 in
    let attempts0 = if is_since t e.last_connect cfg.clone_period then 0 else e.attempts in
    let k = update_keeps t (record e { connected = c; attempts = attempts0 }) in
    let s = k.same in
    let n = k.count in
    elim (Bool-cases (c == 0)) [
      | inl z ↦ rw (check_entry, z) (record { same = refl; count = ground arith }, ground arith)
      | inr z ↦ elim (Bool-cases (ltb (saturate 256 attempts0) cfg.clone_limit)) [
        | inl l ↦ rw (check_entry, z, l) (record { same = s; count = ground arith }, ground arith)
        | inr l ↦ elim (Bool-cases (is_throttling cfg t)) [
          | inl r ↦
              rw (check_entry, z, l, r) (record { same = s; count = ground arith }, ground arith)
          | inr r ↦
              rw (check_entry, z, l, r) (record { same = s; count = ground arith }, ground arith)
        ]
      ]
    ]

pub count_found :
    (r : Registry) (ip : Addr) (e : Entry)
    → ip_registry_find r ip ≡ some e
    → ip_registry_count r ip ≡ e.connected
unfolding ip_registry_count
count_found r ip e h = rw (ip_registry_count, h) refl

pub count_none :
    (r : Registry) (ip : Addr) → ip_registry_find r ip ≡ none → ip_registry_count r ip ≡ 0
unfolding ip_registry_count
count_none r ip h = rw (ip_registry_count, h) refl

-- What accepting or refusing a client does to the count of its address.
abbrev pub Accounts : Registry → Addr → Outcome → Type 0
Accounts r ip o =
    (ip_registry_count o.registry ip
      ≡ (if o.accepted then ip_registry_count r ip + 1 else ip_registry_count r ip))
    × (ip_registry_count o.registry ip < 65536)

check_known_count :
    (cfg : Config) (t : ℕ) (r : Registry) (ip : Addr)
    → ip_registry_count r ip < 65536
    → Accounts r ip (check_known cfg t r ip)
unfolding check_known ip_registry_new_entry
check_known_count cfg t r ip h = elim (Option-cases (ip_registry_find r ip)) [
  | inl e ↦
      let zero = count_none r ip e in
      let one =
        count_found _ ip _ (find-add r ip (ip_registry_new_entry t (canonicalize ip)) refl) in
      rw (check_known, e) (omega arith, omega arith)
  | inr (x, e) ↦
      let now_count = count_found r ip x e in
      let (k, bound) = check_entry_count cfg t x (omega arith) in
      let found = find-change r ip (λ _. (check_entry cfg t x).0) x e k.same in
      let then_count = count_found _ ip _ found in
      rw (check_known, e) (then_count ∙ k.count ∙ rw now_count refl, omega arith)
]

pub count48 :
    (cfg : Config) (t : ℕ) (r : Registry) (ip : Addr)
    → ip_registry_count (ip_48_find t r ip (touch48 cfg t)).0 ip ≡ ip_registry_count r ip
unfolding ip_registry_count
count48 cfg t r ip = rw (ip_registry_count, find-find48 t r ip ip (touch48 cfg t)) refl

reject48_count :
    (t : ℕ) (r : Registry) (ip : Addr)
    → ip_registry_count r ip < 65536
    → ip_registry_count (change r ip (reject48 t)) ip ≡ ip_registry_count r ip
unfolding reject48
reject48_count t r ip h = elim (Option-cases (ip_registry_find r ip)) [
  | inl e ↦ count_none _ ip (find-change-none r ip (reject48 t) e) ∙ sym (count_none r ip e)
  | inr (x, e) ↦
      let now_count = count_found r ip x e in
      count_found _ ip _ (find-change r ip (reject48 t) x e refl) ∙ ground arith
]

-- With a count that fits in 16 bits, a local client that is accepted adds one to the count of its
-- address, and one that is refused, for whatever reason, leaves the count as it was; the count fits
-- in 16 bits again.
pub ip_registry_check_local-count :
    (cfg : Config) (t : ℕ) (r : Registry) (ip : Addr)
    → ip_registry_count r ip < 65536
    → Accounts r ip (ip_registry_check_local cfg t r ip)
unfolding ip_registry_check_local rejected
ip_registry_check_local-count cfg t r ip h =
    let r48 = (ip_48_find t r ip (touch48 cfg t)).0 in
    let e48 = (ip_48_find t r ip (touch48 cfg t)).1 in
    let same = count48 cfg t r ip in
    elim (Bool-cases (is_ipv4 ip)) [
      | inl v ↦ rw (ip_registry_check_local, v) (check_known_count cfg t r ip h)
      | inr v ↦ elim (Bool-cases (leb cfg.clone48_limit e48.attempts && is_throttling cfg t)) [
        | inl b ↦
            rw (ip_registry_check_local, v, b)
              (let kept = reject48_count t r48 ip (omega arith) in (kept ∙ same, omega arith))
        | inr b ↦
            let k = check_known_count cfg t r48 ip (omega arith) in
            rw (ip_registry_check_local, v, b) (rw same at k)
      ]
    ]
