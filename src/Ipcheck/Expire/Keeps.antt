-- ===== src/Ipcheck/Expire/Keeps.antt =====
-- ircd/IPcheck.c: what the expiry keeps.
use irch.Base.{
  Bool-cases, List, Option, [], arith, false, inl, inr, none, refl, some, sym, true, ℕ, ◌<◌, ◌==◌,
  ◌∙◌, ◌∷◌, ◌≡◌, ◌≢◌, ◌≤◌, ◌⊎◌,
}
use irch.Ipcheck.{
  Addr, Entry, Registry, now, is_since, canonicalize, hash, is_hit, find_in, ip_registry_find,
}
use irch.Ipcheck.Expire.{ip_registry_expire_entry, expire_chain, ip_registry_expire}

-- The entry `x` is `e`, less its targets.
pub record IsKept (e x : Entry) : Type 0 where
  pub same : x.addr ≡ e.addr
  pub last : x.last_connect ≡ e.last_connect
  pub count : x.connected ≡ e.connected
  pub tries : x.attempts ≡ e.attempts

IsKept-self : (e : Entry) → IsKept e e
IsKept-self e = record { same = refl; last = refl; count = refl; tries = refl }

same_hit : (canon : Addr) (x e : Entry) → x.addr ≡ e.addr → is_hit canon x ≡ is_hit canon e
unfolding is_hit
same_hit canon x e h = rw h refl

-- An entry without a client goes, or it is kept.
expire_entry_cases :
    (t : ℕ) (e : Entry)
    → (ip_registry_expire_entry t e ≡ none)
      ⊎ ((x : Entry) × (ip_registry_expire_entry t e ≡ some x) × IsKept e x)
unfolding ip_registry_expire_entry
expire_entry_cases t e = elim (Bool-cases (is_since t e.last_connect 600)) [
  | inl a ↦ rw (ip_registry_expire_entry, a) (inl refl)
  | inr a ↦ elim (Bool-cases (is_since t e.last_connect 120)) [
    | inl b ↦
        rw (ip_registry_expire_entry, a, b)
          (inr (
            record e { target = none },
            refl,
            record { same = refl; last = refl; count = refl; tries = refl },
          ))
    | inr b ↦ rw (ip_registry_expire_entry, a, b) (inr (e, refl, IsKept-self e))
  ]
]

-- No time of day is more than 600 seconds past a time in the last ten minutes of the 16-bit clock.
never_since : (t x : ℕ) → 64935 ≤ x → is_since t x 600 ≡ false
unfolding is_since now
never_since t x h = ground arith

late_stays :
    (t : ℕ) (e : Entry)
    → 64935 ≤ e.last_connect
    → (x : Entry) × (ip_registry_expire_entry t e ≡ some x) × IsKept e x
unfolding ip_registry_expire_entry
late_stays t e h = elim (expire_entry_cases t e) [
  | inr k ↦ k
  | inl gone ↦
      let late = never_since t e.last_connect h in
      absurd (ground (arith, (rw (ip_registry_expire_entry, late) at gone)))
]

nil_found : (canon : Addr) (e : Entry) → find_in canon [] ≢ some e
unfolding find_in
nil_found canon e h = cc

cons_hit :
    (canon : Addr) (x : Entry) (es : List Entry)
    → is_hit canon x ≡ true
    → find_in canon (x ∷ es) ≡ some x
unfolding find_in
cons_hit canon x es h = rw h refl

cons_miss :
    (canon : Addr) (x : Entry) (es : List Entry)
    → is_hit canon x ≡ false
    → find_in canon (x ∷ es) ≡ find_in canon es
unfolding find_in
cons_miss canon x es h = rw h refl

chain_live :
    (t : ℕ) (y : Entry) (es : List Entry)
    → (y.connected == 0) ≡ false
    → expire_chain t (y ∷ es) ≡ y ∷ expire_chain t es
unfolding expire_chain
chain_live t y es z = rw z refl

chain_gone :
    (t : ℕ) (y : Entry) (es : List Entry)
    → (y.connected == 0) ≡ true
    → ip_registry_expire_entry t y ≡ none
    → expire_chain t (y ∷ es) ≡ expire_chain t es
unfolding expire_chain
chain_gone t y es z h = rw (z, h) refl

chain_kept :
    (t : ℕ) (y x : Entry) (es : List Entry)
    → (y.connected == 0) ≡ true
    → ip_registry_expire_entry t y ≡ some x
    → expire_chain t (y ∷ es) ≡ x ∷ expire_chain t es
unfolding expire_chain
chain_kept t y x es z h = rw (z, h) refl

-- What keeps an entry: it has a client, or its time is in the last ten minutes of the clock.
abbrev pub Stays : Entry → Type 0
Stays e = (0 < e.connected) ⊎ (64935 ≤ e.last_connect)

head-Stays :
    (t : ℕ) (canon : Addr) (es : List Entry) (e : Entry)
    → is_hit canon e ≡ true
    → Stays e
    → (x : Entry) × (find_in canon (expire_chain t (e ∷ es)) ≡ some x) × IsKept e x
head-Stays t canon es e hit k = elim (Bool-cases (e.connected == 0)) [
  | inr z ↦ rw (chain_live t e es z) (e, cons_hit canon e _ hit, IsKept-self e)
  | inl z ↦
      let (x, f, q) = late_stays t e (ground (arith, k)) in
      rw (chain_kept t e x es z f) (x, cons_hit canon x _ (same_hit canon x e q.same ∙ hit), q)
]

-- An entry before the one that is found makes no difference.
tail_stays :
    (t : ℕ) (canon : Addr) (y : Entry) (es : List Entry)
    → is_hit canon y ≡ false
    → find_in canon (expire_chain t (y ∷ es)) ≡ find_in canon (expire_chain t es)
tail_stays t canon y es miss = elim (Bool-cases (y.connected == 0)) [
  | inr z ↦ rw (chain_live t y es z) (cons_miss canon y _ miss)
  | inl z ↦ elim (expire_entry_cases t y) [
    | inl g ↦ rw (chain_gone t y es z g) refl
    | inr (x, f, q) ↦
        rw (chain_kept t y x es z f) (cons_miss canon x _ (same_hit canon x y q.same ∙ miss))
  ]
]

expire_chain_found :
    (t : ℕ) (canon : Addr) (es : List Entry) (e : Entry)
    → find_in canon es ≡ some e
    → Stays e
    → (x : Entry) × (find_in canon (expire_chain t es) ≡ some x) × IsKept e x
expire_chain_found t canon [] e h k = absurd (nil_found canon e h)
expire_chain_found t canon (y ∷ es) e h k = elim (Bool-cases (is_hit canon y)) [
  | inl hit ↦
      let same : some y ≡ some e = sym (cons_hit canon y es hit) ∙ h in
      let same' : y ≡ e = cc in rw same' (head-Stays t canon es e (rw same' at hit) k)
  | inr miss ↦
      rw (tail_stays t canon y es miss)
        (expire_chain_found t canon es e (sym (cons_miss canon y es miss) ∙ h) k)
]

-- The entry that is found is `e`, less its targets.
abbrev pub KeptIn : Option Entry → Entry → Type 0
KeptIn none e = ⊥
KeptIn (some x) e = IsKept e x

-- The expiry, at any time, keeps an entry that has clients, and also one whose last connection was in
-- the last ten minutes of the 16-bit clock: it is found as before, with its counters.
pub ip_registry_expire-find :
    (t : ℕ) (r : Registry) (ip : Addr) (e : Entry)
    → ip_registry_find r ip ≡ some e
    → Stays e
    → KeptIn (ip_registry_find (ip_registry_expire t r) ip) e
unfolding ip_registry_find ip_registry_expire
ip_registry_expire-find t r ip e h k =
    let (x, f, q) =
      expire_chain_found t (canonicalize ip) (r.table (hash (canonicalize ip))) e h k in
    rw f q
