-- ===== src/Whowas/Operations.antt =====
-- ircd/whowas.c: the operations of the history keep its index.
use irch.Base.{
  Bool, Bool-cases, List, Option, Option-cases, [], ap, arith, inl, inr, leb, length, ltb, none,
  refl, some, suc, sym, update, zero, ℕ, ◌+◌, ◌<◌, ◌==◌, ◌∙◌, ◌∷◌, ◌≡◌, ◌≤◌,
}
use irch.Whowas.{
  Whowas, History, Client, hash_whowas_name, cleaned, reclaim, released, ww_tail, whowas_alloc,
  link_history, realloc_loop, whowas_realloc, add_history, clear_online, off_history,
}
use irch.Whowas.Index.{with_hash, IsIndexed}
use irch.Whowas.Chains.{Every-map, tail_none}
use irch.Whowas.Kept.{
  cleaned-IsCleaned, link_history-IsIndexed, free_IsIndexed, clean_known, clean_counted,
  new-IsCleaned, whowas_clean-tail, whowas_free-tail,
}

-- The operation has not failed, and the result has the property.
abbrev pub Succeeds : (History → Type 0) → Option History → Type 0
Succeeds P none = ⊥
Succeeds P (some h) = P h

-- If the history's length is at least 2 and an indexed history has not outgrown it, `add_history`
-- succeeds, the history is indexed again, and it has not outgrown its length.
pub add_history-IsIndexed :
    (max t : ℕ) (h : History) (c : Client) (still_on : Bool)
    → 1 < max
    → h.ww_alloc ≤ max
    → IsIndexed h
    → Succeeds (λ h'. IsIndexed h' × (h'.ww_alloc ≤ max)) (add_history max t h c still_on)
unfolding add_history whowas_alloc reclaim link_history cleaned
add_history-IsIndexed max t h c still_on pos le k =
    let n = k.counted in
    elim (Bool-cases (leb max h.ww_alloc)) [
      | inr e ↦
          let h' : History = record h { ww_alloc = h.ww_alloc + 1; fresh = h.fresh + 1 } in
          rw (add_history, whowas_alloc, e)
            (
              link_history-IsIndexed h' h.fresh t c still_on
                  (new-IsCleaned h k (h.ww_alloc + 1) (h.fresh + 1) refl) (omega arith)
                  (omega arith),
              ground arith,
            )
      | inl e ↦ elim (Option-cases (ww_tail h.ww_list)) [
        | inl f ↦
            let nil = tail_none h.ww_list f in
            let zero_length : length h.ww_list ≡ 0 = rw nil refl in absurd (ground arith)
        | inr (i, f) ↦
            let kept = whowas_clean-tail h i f k (ground arith) in
            rw (add_history, whowas_alloc, e, f, reclaim, kept)
              (
                link_history-IsIndexed (cleaned h i) i t c still_on (cleaned-IsCleaned h i k)
                    (clean_known h i f k) (clean_counted h i f k),
                le,
              )
      ]
    ]

free_alloc :
    (h : History) (i fuel max : ℕ)
    → h.ww_alloc ≤ suc fuel + max
    → (released (cleaned h i)).ww_alloc ≤ fuel + max
unfolding released cleaned
free_alloc h i fuel max le = omega arith

realloc_loop-IsIndexed :
    (fuel max : ℕ) (h : History)
    → 0 < max
    → h.ww_alloc ≤ fuel + max
    → IsIndexed h
    → Succeeds (λ h'. IsIndexed h' × (h'.ww_alloc ≤ max)) (realloc_loop fuel max h)
unfolding realloc_loop
realloc_loop-IsIndexed zero max h pos le k = (k, omega arith)
realloc_loop-IsIndexed (suc fuel) max h pos le k = elim (Option-cases (ww_tail h.ww_list)) [
  | inl f ↦
      let nil = tail_none h.ww_list f in
      let zero_length : length h.ww_list ≡ 0 = rw nil refl in
      let n = k.counted in rw (realloc_loop, f) (k, omega arith)
  | inr (i, f) ↦ elim (Bool-cases (ltb max h.ww_alloc)) [
    | inr e ↦ rw (realloc_loop, f, e) (k, ground arith)
    | inl e ↦
        let freed = whowas_free-tail h i f k (ground arith) in
        rw (realloc_loop, f, e, freed)
          (realloc_loop-IsIndexed fuel max (released (cleaned h i)) pos (free_alloc h i fuel max le)
            (free_IsIndexed h i f k))
  ]
]

-- If the new length is not 0, `whowas_realloc` succeeds on an indexed history and leaves it indexed,
-- with no more structures than the length.
pub whowas_realloc-IsIndexed :
    (max : ℕ) (h : History)
    → 0 < max
    → IsIndexed h
    → Succeeds (λ h'. IsIndexed h' × (h'.ww_alloc ≤ max)) (whowas_realloc max h)
unfolding whowas_realloc
whowas_realloc-IsIndexed max h pos k = realloc_loop-IsIndexed h.ww_alloc max h pos (omega arith) k

one_same :
    (entries : ℕ → Whowas) (i j : ℕ)
    → ((update entries i (record (entries i) { online = none }) j).hashv ≡ (entries j).hashv)
      × ((update entries i (record (entries i) { online = none }) j).name ≡ (entries j).name)
one_same entries i j = elim (Bool-cases (j == i)) [
  | inl e ↦ let same : j ≡ i = ground arith in rw (e, same) (refl, refl)
  | inr e ↦ rw e (refl, refl)
]

cleared_same :
    (entries : ℕ → Whowas) (is : List ℕ) (j : ℕ)
    → ((clear_online entries is j).hashv ≡ (entries j).hashv)
      × ((clear_online entries is j).name ≡ (entries j).name)
unfolding clear_online
cleared_same entries [] j = (refl, refl)
cleared_same entries (i ∷ is) j =
    let next = update entries i (record (entries i) { online = none }) in
    let (a, b) = cleared_same next is j in let (c, d) = one_same entries i j in (a ∙ c, b ∙ d)

with_hash-same :
    (a b : ℕ → Whowas) (v : ℕ) (is : List ℕ)
    → ((j : ℕ) → (a j).hashv ≡ (b j).hashv)
    → with_hash a v is ≡ with_hash b v is
unfolding with_hash
with_hash-same a b v [] h = refl
with_hash-same a b v (i ∷ is) h = rw (h i, with_hash-same a b v is h) refl

-- `off_history` leaves an indexed history indexed.
pub off_history-IsIndexed :
    (h : History) (client : ℕ) → IsIndexed h → IsIndexed (off_history h client)
unfolding off_history
off_history-IsIndexed h client k =
    let same = cleared_same h.entries (h.cli_whowas client) in
    let cleared = clear_online h.entries (h.cli_whowas client) in
    record {
      chains =
          λ v. k.chains v ∙ sym (with_hash-same cleared h.entries v h.ww_list (λ j. (same j).0));
      hashed =
          Every-map (λ i. (h.entries i).hashv ≡ hash_whowas_name (h.entries i).name)
            (λ i. (cleared i).hashv ≡ hash_whowas_name (cleared i).name) h.ww_list
            (λ i e. (same i).0 ∙ e ∙ sym (ap hash_whowas_name (same i).1)) k.hashed;
      known = k.known;
      distinct = k.distinct;
      counted = k.counted;
    }
