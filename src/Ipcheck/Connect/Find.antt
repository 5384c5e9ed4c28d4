-- ===== src/Ipcheck/Connect/Find.antt =====
-- ircd/IPcheck.c: `ip_registry_find` after a change of the registry.
use irch.Base.{
  Bool-cases, List, Option-cases, [], ap, arith, false, inl, inr, ltb, none, refl, some, sym, true,
  update, update_self, ℕ, ◌-◌, ◌==◌, ◌∙◌, ◌∷◌, ◌≡◌, ◌≢◌, ◌≤◌, ◌⊎◌,
}
use irch.Ipcheck.{
  prefix_bits, Addr, Entry, Entry48, Registry, words, canonicalize, ipmask_check, hash, is_hit,
  find_in, ip_registry_find, change_in, change, ip_registry_add, find48_in, ip_48_hash, ip_48_find,
}

pub found_hit :
    (canon : Addr) (es : List Entry) (e : Entry) → find_in canon es ≡ some e → is_hit canon e ≡ true
unfolding find_in
found_hit canon [] e h = cc
found_hit canon (x ∷ es) e h = elim (Bool-cases (is_hit canon x)) [
  | inl t ↦ let same : some x ≡ some e = rw t at h in cc
  | inr t ↦ found_hit canon es e (rw t at h)
]

changed_in :
    (canon : Addr) (f : Entry → Entry) (es : List Entry) (e : Entry)
    → find_in canon es ≡ some e
    → is_hit canon (f e) ≡ true
    → find_in canon (change_in canon f es) ≡ some (f e)
unfolding find_in change_in
changed_in canon f [] e h k = cc
changed_in canon f (x ∷ es) e h k = elim (Bool-cases (is_hit canon x)) [
  | inl t ↦ let same : x ≡ e = ground (arith, (rw t at h)) in rw (t, same, k) refl
  | inr t ↦ rw (t, t) (changed_in canon f es e (rw t at h) k)
]

same_hit : (canon : Addr) (x e : Entry) → x.addr ≡ e.addr → is_hit canon x ≡ is_hit canon e
unfolding is_hit
same_hit canon x e h = rw h refl

-- The changed entry is the one that is found.
pub find-change :
    (r : Registry) (ip : Addr) (f : Entry → Entry) (e : Entry)
    → ip_registry_find r ip ≡ some e
    → (f e).addr ≡ e.addr
    → ip_registry_find (change r ip f) ip ≡ some (f e)
unfolding ip_registry_find change
find-change r ip f e h a =
    let canon = canonicalize ip in
    let hit = same_hit canon (f e) e a ∙ found_hit canon (r.table (hash canon)) e h in
    rw (update_self r.table (hash canon) (change_in canon f (r.table (hash canon))))
      (changed_in canon f (r.table (hash canon)) e h hit)

eq_self : (a : ℕ) → (a == a) ≡ true
eq_self a = ground arith

-- One word of `ipmask_check` on equal addresses.
self_word :
    (a bits : ℕ) (s : List ℕ)
    → 16 ≤ bits
    → (bits ≢ 16 → ipmask_check s s (bits - 16) ≡ true)
    → ipmask_check (a ∷ s) (a ∷ s) bits ≡ true
unfolding ipmask_check
self_word a bits s le k =
    let long : ltb bits 16 ≡ false = ground arith in
    elim (Bool-cases (bits == 16)) [
      | inl e ↦ rw (long, eq_self a, e) refl
      | inr e ↦ rw (long, eq_self a, e) (k (ground arith))
    ]

words_self :
    (a b c d : ℕ) (s : List ℕ) (bits : ℕ)
    → (bits ≡ 48) ⊎ (bits ≡ 64)
    → ipmask_check (a ∷ b ∷ c ∷ d ∷ s) (a ∷ b ∷ c ∷ d ∷ s) bits ≡ true
words_self a b c d s bits h = self_word a bits _ (omega arith) λ _.
    self_word b (bits - 16) _ (omega arith) λ _.
      self_word c (bits - 16 - 16) _ (omega arith)
        λ n. self_word d (bits - 16 - 16 - 16) _ (omega arith) λ m. absurd (omega arith)

self_bits : (w : ℕ) → (prefix_bits w ≡ 48) ⊎ (prefix_bits w ≡ 64)
unfolding prefix_bits
self_bits w = elim (Bool-cases (w == 0x2002)) [ inl e ↦ rw e (inl refl) | inr e ↦ rw e (inr refl) ]

unchanged_in :
    (canon : Addr) (f : Entry → Entry) (es : List Entry)
    → find_in canon es ≡ none
    → find_in canon (change_in canon f es) ≡ none
unfolding find_in change_in
unchanged_in canon f [] h = h
unchanged_in canon f (x ∷ es) h = elim (Bool-cases (is_hit canon x)) [
  | inl t ↦ let no : some x ≡ none = rw t at h in cc
  | inr t ↦ rw (t, t) (unchanged_in canon f es (rw t at h))
]

-- A change of no entry makes none.
pub find-change-none :
    (r : Registry) (ip : Addr) (f : Entry → Entry)
    → ip_registry_find r ip ≡ none
    → ip_registry_find (change r ip f) ip ≡ none
unfolding ip_registry_find change
find-change-none r ip f h =
    let canon = canonicalize ip in
    rw (update_self r.table (hash canon) (change_in canon f (r.table (hash canon))))
      (unchanged_in canon f (r.table (hash canon)) h)

own_hit : (canon : Addr) (e : Entry) → e.addr ≡ canon → is_hit canon e ≡ true
unfolding is_hit words
own_hit canon e h =
    rw h
      (words_self canon.w0 canon.w1 canon.w2 canon.w3 _ (prefix_bits canon.w0) (self_bits canon.w0))

head_found :
    (canon : Addr) (e : Entry) (es : List Entry)
    → is_hit canon e ≡ true
    → find_in canon (e ∷ es) ≡ some e
unfolding find_in
head_found canon e es h = rw h refl

-- A new entry is found at once.
pub find-add :
    (r : Registry) (ip : Addr) (e : Entry)
    → e.addr ≡ canonicalize ip
    → ip_registry_find (ip_registry_add r e) ip ≡ some e
unfolding ip_registry_find ip_registry_add
find-add r ip e h =
    let es = r.table (hash e.addr) in
    let at : update r.table (hash e.addr) (e ∷ es) (hash (canonicalize ip)) ≡ e ∷ es =
      rw (sym h) (update_self r.table (hash e.addr) (e ∷ es)) in
    ap (find_in (canonicalize ip)) at
    ∙ head_found (canonicalize ip) e es (own_hit (canonicalize ip) e h)

-- The entries of the /48 blocks have a table of their own.
find48_table :
    (t : ℕ) (r : Registry) (ip : Addr) (f : Entry48 → Entry48)
    → (ip_48_find t r ip f).0.table ≡ r.table
unfolding ip_48_find
find48_table t r ip f = elim (Option-cases (find48_in ip (r.table48 (ip_48_hash ip)))) [
  | inl e ↦ rw (ip_48_find, e) refl
  | inr (x, e) ↦ rw (ip_48_find, e) refl
]

pub find-find48 :
    (t : ℕ) (r : Registry) (ip at : Addr) (f : Entry48 → Entry48)
    → ip_registry_find (ip_48_find t r ip f).0 at ≡ ip_registry_find r at
unfolding ip_registry_find
find-find48 t r ip at f =
    ap (λ (tb : ℕ → List Entry). find_in (canonicalize at) (tb (hash (canonicalize at))))
      (find48_table t r ip f)
