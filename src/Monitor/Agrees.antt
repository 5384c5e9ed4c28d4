-- ===== src/Monitor/Agrees.antt =====
-- ircd/monitor.c: what each operation does to the nicks that the clients watch.
use irch.Base.{
  Bool-iff, Bool, Bool-cases, List, NoDup, ap, arith, contains, contains-erase, erase, false, inl,
  inr, not, refl, sym, true, update, ℕ, ◌&&◌, ◌==◌, ◌||◌, ◌∙◌, ◌∷◌, ◌≡◌,
}
use irch.Crule.{same_text}
use irch.Crule.Same.{same_text-sym, same_text_trans}
use irch.Hash.{seek, strhash}
use irch.Monitor.{State, free_monitor, is_empty, link, make_monitor, release}
use irch.Monitor.Changes.{cut}
use irch.Monitor.Linked.{IsLinked}
use irch.Monitor.Watches.{has, has-true, has-witness, watches}

has_congr :
    (f g : ℕ → Bool) (ps : List ℕ)
    → ((p : ℕ) → contains p ps ≡ true → f p ≡ g p)
    → has f ps ≡ has g ps
has_congr f g ps e =
    Bool-iff (has f ps) (has g ps)
      (λ h. let (p, at, t) = has-witness f ps h in has-true g ps p at (sym (e p at) ∙ t))
      (λ h. let (p, at, t) = has-witness g ps h in has-true f ps p at (e p at ∙ t))

has_cons : (f : ℕ → Bool) (p : ℕ) (ps : List ℕ) → has f (p ∷ ps) ≡ (f p || has f ps)
unfolding has irch.Hash.first
has_cons f p ps = ground arith

-- Without a member that is the only one at which the test may succeed.
has-erase :
    (f : ℕ → Bool) (p : ℕ) (ps : List ℕ)
    → NoDup ps
    → (f p ≡ true → (q : ℕ) → contains q ps ≡ true → f q ≡ true → q ≡ p)
    → has f (erase p ps) ≡ (has f ps && not (f p))
has-erase f p ps once only =
    Bool-iff (has f (erase p ps)) (has f ps && not (f p))
      (λ h.
        let (q, at, t) = has-witness f (erase p ps) h in
        let k : (contains q ps && not (q == p)) ≡ true = sym (contains-erase q p ps once) ∙ at in
        let before : has f ps ≡ true = has-true f ps q (ground arith) t in
        elim (Bool-cases (f p)) [
          | inl e ↦ absurd (let same : q ≡ p = only e q (ground arith) t in ground arith)
          | inr e ↦ ground arith
        ])
      (λ h.
        let before : has f ps ≡ true = ground arith in
        let (q, at, t) = has-witness f ps before in
        has-true f (erase p ps) q
          (elim (Bool-cases (q == p)) [
            | inl e ↦ absurd (
                let same : q ≡ p = ground arith in
                let u : f p ≡ true = ap f (sym same) ∙ t in ground arith)
            | inr e ↦ contains-erase q p ps once ∙ ground arith
          ])
          t)

-- Client `d` watches a nick that is spelled like `n` but for the case of its letters.
unfoldable pub is_watch : ℕ → List ℕ → ℕ → List ℕ → Bool
is_watch c n d k = d == c && same_text k n

module _ {crc32hash : ℕ → ℕ} {entries : List ℕ} {s : State} (h : IsLinked crc32hash entries s) where
  pub watches-cut :
      (c p d : ℕ) (k : List ℕ)
      → contains p (s.watched c) ≡ true
      → watches (cut s c p) d k ≡ (watches s d k && not (is_watch c (s.nick p) d k))
  unfolding watches is_watch
  watches-cut c p d k at = elim (Bool-cases (d == c)) [
    | inr e ↦ rw e (ground arith)
    | inl e ↦
        let same : d ≡ c = ground arith in
        let test = λ (q : ℕ). same_text k (s.nick q) in
        let only : test p ≡ true
            → (q : ℕ) → contains q (s.watched c) ≡ true
            → test q ≡ true
            → q ≡ p =
          λ t q in_list u.
            h.distinct q p (h.live q c in_list) (h.live p c at)
              (same_text_trans (s.nick q) k (s.nick p) (same_text-sym k (s.nick q) u) t) in
        rw same (ground (arith, has-erase test p (s.watched c) (h.watched_once c) only))
  ]

  pub watches-link :
      (c p d : ℕ) (k : List ℕ)
      → contains p entries ≡ true
      → watches (link crc32hash s c p) d k ≡ (is_watch c (s.nick p) d k || watches s d k)
  unfolding watches link is_watch
  watches-link c p d k at =
      let test = λ (q : ℕ). same_text k (s.nick q) in
      elim (Bool-cases (contains c (s.watchers p))) [
        | inl e ↦
            let present : test p ≡ true → has test (s.watched c) ≡ true =
              has-true test (s.watched c) p (sym (h.both p c) ∙ e) in
            rw e (elim (Bool-cases (d == c)) [
              | inl f ↦ let same : d ≡ c = ground arith in rw same (ground (arith, present))
              | inr f ↦ rw f refl
            ])
        | inr e ↦ rw e (elim (Bool-cases (d == c)) [
          | inl f ↦
              rw f (let same : d ≡ c = ground arith in rw same (has_cons test p (s.watched c)))
          | inr f ↦ rw f refl
        ])
      ]

  pub watches-make_monitor :
      (p : ℕ) (n : List ℕ) (d : ℕ) (k : List ℕ)
      → contains p entries ≡ false
      → watches (make_monitor crc32hash s p n) d k ≡ watches s d k
  unfolding watches make_monitor
  watches-make_monitor p n d k new =
      has_congr (λ q. same_text k (update s.nick p n q)) (λ q. same_text k (s.nick q)) (s.watched d)
        (λ q at. elim (Bool-cases (q == p)) [
          | inl e ↦ absurd (let l : contains q entries ≡ true = h.live q d at in ground arith)
          | inr e ↦ rw e refl
        ])

pub watches-release :
    (crc32hash : ℕ → ℕ) (s : State) (p d : ℕ) (k : List ℕ)
    → watches (release crc32hash s p) d k ≡ watches s d k
unfolding watches release free_monitor
watches-release crc32hash s p d k = elim (Bool-cases (is_empty (s.watchers p))) [
  | inl e ↦ rw e refl
  | inr e ↦ rw e refl
]
