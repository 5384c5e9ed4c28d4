-- ===== src/Monitor/Told.antt =====
-- ircd/monitor.c and ircd/m_monitor.c: who is told of a nick, and what a client that is watched can ask for.
use irch.Base.{
  Bool-iff, Bool-cases, List, NoDup, [], ap, arith, contains, false, inl, inr, length, leb, none,
  refl, some, sym, true, ℕ, ◌||◌, ◌∙◌, ◌∷◌, ◌≡◌, Option,
}
use irch.Crule.{same_text}
use irch.Monitor.{State, add_loop, find_monitor, is_empty}
use irch.Monitor.Delete.{other_nick}
use irch.Monitor.Find.{Agrees, Found, Watching, find_monitor-Found}
use irch.Monitor.Watches.{has-true, has-witness, watches}

module _ {crc32hash : ℕ → ℕ} {w : Watching} {s : State} (a : Agrees crc32hash w s) where
  -- If no monitor has the nick, then nobody watches it.
  watched_by_none : (n : List ℕ) → Found a.entries s n none → (d : ℕ) → w d n ≡ false
  unfolding watches
  watched_by_none n other d = elim (Bool-cases (watches s d n)) [
    | inr e ↦ sym (a.shows d n) ∙ e
    | inl e ↦ absurd (
        let (q, at, named) = has-witness (λ p. same_text n (s.nick p)) (s.watched d) e in
        let no : same_text n (s.nick q) ≡ false = other q (a.linked.live q d at) in ground arith)
  ]

  watched_by :
      (n : List ℕ) (p : ℕ)
      → Found a.entries s n (some p)
      → (d : ℕ) → contains d (s.watchers p) ≡ w d n
  unfolding watches
  watched_by n p (at, named) d =
      let test = λ (q : ℕ). same_text n (s.nick q) in
      a.linked.both p d
      ∙ Bool-iff (contains p (s.watched d)) (watches s d n)
          (λ linked. has-true test (s.watched d) p linked named)
          (λ seen.
            let (q, linked, named') = has-witness test (s.watched d) seen in
            let same : q ≡ p = other_nick a p q n at named (a.linked.live q d linked) named' in
            ap (λ r. contains r (s.watched d)) (sym same) ∙ linked)
      ∙ a.shows d n

pub told :
    {crc32hash : ℕ → ℕ} {w : Watching} {s : State} (a : Agrees crc32hash w s) (n : List ℕ)
    (found : Option ℕ)
    → Found a.entries s n found
    → NoDup (elim found [ none ↦ [] | some p ↦ s.watchers p ])
      × ((d : ℕ) → contains d (elim found [ none ↦ [] | some p ↦ s.watchers p ]) ≡ w d n)
unfolding contains
told a n none other = (tt, λ d. sym (watched_by_none a n other d))
told a n (some p) f = (a.linked.watchers_once p, watched_by a n p f)

-- With a nick for which somebody watches, the search finds a monitor.
own_name-Found :
    {crc32hash : ℕ → ℕ} {w : Watching} {s : State} (a : Agrees crc32hash w s) (n : List ℕ) (d : ℕ)
    (found : Option ℕ)
    → w d n ≡ true
    → Found a.entries s n found
    → (p : ℕ) × (found ≡ some p)
own_name-Found a n d none seen other = absurd (let no = watched_by_none a n other d in ground arith)
own_name-Found a n d (some p) seen f = (p, refl)

pub add_loop-own_name :
    {crc32hash : ℕ → ℕ} {w : Watching} (limit x : ℕ) (t : List ℕ) (s : State) (sptr d : ℕ)
    (nicks : List (List ℕ × ℕ))
    → Agrees crc32hash w s
    → w d (x ∷ t) ≡ true
    → Agrees crc32hash w (add_loop crc32hash limit (x ∷ t) s sptr nicks).0
unfolding add_loop
add_loop-own_name limit x t s sptr d [] a seen = a
add_loop-own_name {crc32hash} {w} limit x t s sptr d ((n, mptr) ∷ nicks) a seen =
    elim (Bool-cases (is_empty n || leb 15 (length n))) [
      | inl e ↦ rw (add_loop, e) (add_loop-own_name limit x t s sptr d nicks a seen)
      | inr e ↦ elim (Bool-cases (leb limit (s.monitors sptr))) [
        | inl full ↦ rw (add_loop, e, full) a
        | inr room ↦
            let (b, same, f) = find_monitor-Found a x t in
            let (p, own) = own_name-Found b (x ∷ t) d (find_monitor crc32hash s (x ∷ t)).1 seen f in
            rw (add_loop, e, room, own)
              (add_loop-own_name limit x t (find_monitor crc32hash s (x ∷ t)).0 sptr d nicks b seen)
      ]
    ]
