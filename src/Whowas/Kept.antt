-- ===== src/Whowas/Kept.antt =====
-- ircd/whowas.c: what unlinking and linking a structure do to the index.
use irch.Base.{
  Bool, Bool-cases, List, [], arith, false, inl, inr, length, refl, some, sym, true, update,
  update_ne, update_self, ℕ, ◌+◌, ◌<◌, ◌==◌, ◌∙◌, ◌∷◌, ◌≡◌, ◌≢◌,
}
use irch.Whowas.{
  Whowas, History, Client, hash_whowas_name, unlink, cleaned, released, whowas_clean, whowas_free,
  ww_tail, whowas_of, link_history,
}
use irch.Whowas.Chains.{
  Every-unlink, Distinct-unlink, Every-gone, with_hash-unlink, unlink-with_hash, with_hash-update,
  Every-map, tail_in, length-unlink, tail_not_head,
}
use irch.Whowas.Index.{Every, Distinct, with_hash, IsIndexed}

-- What is left of an index when `i` is cleaned, apart from the count.
pub record IsCleaned (i : ℕ) (h : History) : Type 0 where
  pub chains : (v : ℕ) → h.whowashash v ≡ with_hash h.entries v h.ww_list
  pub hashed : Every (λ i. (h.entries i).hashv ≡ hash_whowas_name (h.entries i).name) h.ww_list
  pub known : Every (λ i. i < h.fresh) h.ww_list
  pub distinct : Distinct h.ww_list
  pub gone : Every (λ j. j ≢ i) h.ww_list

clean_chains :
    (h : History) (i v : ℕ)
    → h.whowashash v ≡ with_hash h.entries v h.ww_list
    → h.whowashash (h.entries i).hashv ≡ with_hash h.entries (h.entries i).hashv h.ww_list
    → update h.whowashash (h.entries i).hashv (unlink i (h.whowashash (h.entries i).hashv)) v
      ≡ with_hash h.entries v (unlink i h.ww_list)
clean_chains h i v k l = elim (Bool-cases (v == (h.entries i).hashv)) [
  | inl e ↦
      let same : v ≡ (h.entries i).hashv = ground arith in
      rw (e, l, same) (sym (with_hash-unlink h.entries (h.entries i).hashv i h.ww_list))
  | inr e ↦
      rw (e, k)
        (sym (
          with_hash-unlink h.entries v i h.ww_list
          ∙ unlink-with_hash h.entries v i h.ww_list (ground arith)))
]

pub cleaned-IsCleaned : (h : History) (i : ℕ) → IsIndexed h → IsCleaned i (cleaned h i)
unfolding cleaned
cleaned-IsCleaned h i k = record {
  chains = λ v. clean_chains h i v (k.chains v) (k.chains (h.entries i).hashv);
  hashed =
      Every-unlink i (λ i. (h.entries i).hashv ≡ hash_whowas_name (h.entries i).name) h.ww_list
        k.hashed;
  known = Every-unlink i (λ i. i < h.fresh) h.ww_list k.known;
  distinct = Distinct-unlink i h.ww_list k.distinct;
  gone = Every-gone i h.ww_list;
}

link_chains :
    (h : History) (i v : ℕ) (w : Whowas)
    → Every (λ j. j ≢ i) h.ww_list
    → ((u : ℕ) → h.whowashash u ≡ with_hash h.entries u h.ww_list)
    → update h.whowashash w.hashv (i ∷ h.whowashash w.hashv) v
      ≡ with_hash (update h.entries i w) v (i ∷ h.ww_list)
unfolding with_hash
link_chains h i v w gone k =
    let same = with_hash-update h.entries v i w h.ww_list gone in
    elim (Bool-cases (v == w.hashv)) [
      | inl e ↦
          let e' : v ≡ w.hashv = ground arith in
          let f : (w.hashv == v) ≡ true = ground arith in
          rw (update_self h.entries i w, f, e, same, k w.hashv, e') refl
      | inr e ↦
          let f : (w.hashv == v) ≡ false = ground arith in
          rw (update_self h.entries i w, f, e, same) (k v)
    ]

Every-update :
    (P : Whowas → Type 0) (entries : ℕ → Whowas) (i : ℕ) (w : Whowas) (is : List ℕ)
    → Every (λ j. j ≢ i) is
    → Every (λ j. P (entries j)) is
    → Every (λ j. P (update entries i w j)) is
Every-update P entries i w [] gone k = tt
Every-update P entries i w (j ∷ js) (ne, gone) (k, ks) =
    (rw (update_ne entries i w j ne) k, Every-update P entries i w js gone ks)

own_hash :
    (t : ℕ) (c : Client) (still_on : Bool)
    → (whowas_of t c still_on).hashv ≡ hash_whowas_name (whowas_of t c still_on).name
unfolding whowas_of
own_hash t c still_on = refl

-- The structure is linked in behind a clean-up, or with a new pointer.
pub link_history-IsIndexed :
    (h : History) (i t : ℕ) (c : Client) (still_on : Bool)
    → IsCleaned i h
    → i < h.fresh
    → h.ww_alloc ≡ length h.ww_list + 1
    → IsIndexed (link_history h i t c still_on)
unfolding link_history with_hash
link_history-IsIndexed h i t c still_on k lt n =
    let w = whowas_of t c still_on in
    record {
      chains = λ v. link_chains h i v w k.gone k.chains;
      hashed = (
        rw (update_self h.entries i w) (own_hash t c still_on),
        Every-update (λ (w : Whowas). w.hashv ≡ hash_whowas_name w.name) h.entries i w h.ww_list
            k.gone k.hashed,
      );
      known = (lt, k.known);
      distinct = (k.gone, k.distinct);
      counted = omega arith;
    }

pub free_IsIndexed :
    (h : History) (i : ℕ)
    → ww_tail h.ww_list ≡ some i
    → IsIndexed h
    → IsIndexed (released (cleaned h i))
unfolding released cleaned
free_IsIndexed h i e k =
    let c = cleaned-IsCleaned h i k in
    let n = k.counted in
    let l = length-unlink h.ww_list i e k.distinct in
    record {
      chains = c.chains;
      hashed = c.hashed;
      known = c.known;
      distinct = c.distinct;
      counted = omega arith;
    }

-- In an indexed history of two structures or more, the tail is cleaned and the head stays.
pub whowas_clean-tail :
    (h : History) (i : ℕ)
    → ww_tail h.ww_list ≡ some i
    → IsIndexed h
    → 1 < h.ww_alloc
    → whowas_clean h i ≡ some (cleaned h i)
unfolding whowas_clean
whowas_clean-tail h i e k lt =
    let n = k.counted in rw (tail_not_head h.ww_list i e k.distinct (omega arith)) refl

pub whowas_free-tail :
    (h : History) (i : ℕ)
    → ww_tail h.ww_list ≡ some i
    → IsIndexed h
    → 1 < h.ww_alloc
    → whowas_free h i ≡ some (released (cleaned h i))
unfolding whowas_free
whowas_free-tail h i e k lt = rw (whowas_free, whowas_clean-tail h i e k lt) refl

tail_known : (h : History) (i : ℕ) → ww_tail h.ww_list ≡ some i → IsIndexed h → i < h.fresh
tail_known h i e k = tail_in (λ i. i < h.fresh) h.ww_list i e k.known

pub clean_known :
    (h : History) (i : ℕ) → ww_tail h.ww_list ≡ some i → IsIndexed h → i < (cleaned h i).fresh
unfolding cleaned
clean_known h i e k = tail_known h i e k

pub clean_counted :
    (h : History) (i : ℕ)
    → ww_tail h.ww_list ≡ some i
    → IsIndexed h
    → (cleaned h i).ww_alloc ≡ length (cleaned h i).ww_list + 1
unfolding cleaned
clean_counted h i e k = let n = k.counted in omega (arith, length-unlink h.ww_list i e k.distinct)

pub new-IsCleaned :
    (h : History)
    → IsIndexed h
    → (alloc fresh : ℕ) → fresh ≡ h.fresh + 1
    → IsCleaned h.fresh (record h { ww_alloc = alloc; fresh = fresh })
new-IsCleaned h k alloc fresh e = record {
  chains = k.chains;
  hashed = k.hashed;
  known =
      rw e (
        Every-map (λ i. i < h.fresh) (λ i. i < h.fresh + 1) h.ww_list (λ i lt. omega arith)
          k.known);
  distinct = k.distinct;
  gone =
      Every-map (λ i. i < h.fresh) (λ i. i ≢ h.fresh) h.ww_list (λ i lt same. omega arith) k.known;
}
