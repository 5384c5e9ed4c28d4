-- ===== src/Whowas/Index.antt =====
-- ircd/whowas.c: the chains of `whowashash` are an index of the list.
use irch.Base.{
  Bool-cases, List, [], ap, arith, if◌then◌else◌, inl, inr, length, refl, sym, true, ℕ, ◌%◌, ◌*◌,
  ◌+◌, ◌/◌, ◌<◌, ◌==◌, ◌^◌, ◌∙◌, ◌∷◌, ◌≡◌, ◌≢◌,
}
use irch.Chattr.{to_lower}
use irch.Crule.{same_text}
use irch.Whowas.{Whowas, History, hash_loop, hash_whowas_name, is_recent, first_recent, get_history}

abbrev pub Every : (ℕ → Type 0) → List ℕ → Type 0
Every P [] = Unit
Every P (i ∷ is) = P i × Every P is

-- The pointers of a list whose entries have the hash value `v`.
unfoldable pub with_hash : (ℕ → Whowas) → ℕ → List ℕ → List ℕ
with_hash entries v [] = []
with_hash entries v (i ∷ is) =
    let onward = with_hash entries v is in if (entries i).hashv == v then i ∷ onward else onward

abbrev pub Distinct : List ℕ → Type 0
Distinct [] = Unit
Distinct (i ∷ is) = Every (λ j. j ≢ i) is × Distinct is

-- The chains hold the entries of the list, each under the hash value of its name and in the list's
-- order; the pointers differ and have been allocated, and `ww_alloc` is their number.
pub record IsIndexed (h : History) : Type 0 where
  pub chains : (v : ℕ) → h.whowashash v ≡ with_hash h.entries v h.ww_list
  pub hashed : Every (λ i. (h.entries i).hashv ≡ hash_whowas_name (h.entries i).name) h.ww_list
  pub known : Every (λ i. i < h.fresh) h.ww_list
  pub distinct : Distinct h.ww_list
  pub counted : h.ww_alloc ≡ length h.ww_list

same_loop :
    (a b : List ℕ) (hash hash2 : ℕ)
    → same_text a b ≡ true
    → hash_loop hash hash2 a ≡ hash_loop hash hash2 b
unfolding same_text hash_loop
same_loop [] [] hash hash2 h = refl
same_loop [] (d ∷ b) hash hash2 h = cc
same_loop (c ∷ a) [] hash hash2 h = cc
same_loop (c ∷ a) (d ∷ b) hash hash2 h =
    let e : to_lower c ≡ to_lower d = ground arith in
    let s : same_text a b ≡ true = ground arith in
    rw e (same_loop a b ((hash * 2 + to_lower d) % 2 ^ 32) ((hash2 / 2 + to_lower d) % 2 ^ 32) s)

same_hash : (a b : List ℕ) → same_text a b ≡ true → hash_whowas_name a ≡ hash_whowas_name b
unfolding hash_whowas_name
same_hash a b h = rw (same_loop a b 0 0 h) refl

module _ (t limit : ℕ) (nick : List ℕ) (entries : ℕ → Whowas) where
  recent_hash :
      (i : ℕ)
      → (entries i).hashv ≡ hash_whowas_name (entries i).name
      → is_recent t limit nick (entries i) ≡ true
      → (entries i).hashv ≡ hash_whowas_name nick
  unfolding is_recent
  recent_hash i h r =
      let s : same_text nick (entries i).name ≡ true = ground arith in
      h ∙ sym (same_hash nick (entries i).name s)

  first_recent-with_hash :
      (is : List ℕ)
      → Every (λ i. (entries i).hashv ≡ hash_whowas_name (entries i).name) is
      → first_recent t limit nick entries (with_hash entries (hash_whowas_name nick) is)
        ≡ first_recent t limit nick entries is
  unfolding first_recent with_hash
  first_recent-with_hash [] k = refl
  first_recent-with_hash (i ∷ is) (k, ks) =
      let onward = first_recent-with_hash is ks in
      elim (Bool-cases ((entries i).hashv == hash_whowas_name nick)) [
        | inl e ↦ rw (e, onward) refl
        | inr e ↦ elim (Bool-cases (is_recent t limit nick (entries i))) [
          | inl r ↦ let same = recent_hash i k r in absurd (ground arith)
          | inr r ↦ rw (e, r) onward
        ]
      ]

-- In an indexed history, `get_history` looks at one chain alone and finds what a search of the
-- whole list finds.
pub get_history-first_recent :
    (t limit : ℕ) (h : History) (nick : List ℕ)
    → IsIndexed h
    → get_history t limit h nick ≡ first_recent t limit nick h.entries h.ww_list
unfolding get_history
get_history-first_recent t limit h nick k =
    ap (first_recent t limit nick h.entries) (k.chains (hash_whowas_name nick))
    ∙ first_recent-with_hash t limit nick h.entries h.ww_list k.hashed
