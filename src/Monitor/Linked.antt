-- ===== src/Monitor/Linked.antt =====
-- ircd/monitor.c: the lists, the table and the counts agree.
use irch.Base.{
  Bool, Bool-cases, List, NoDup, [], ap, arith, contains, contains-erase, erase, erase-NoDup, false,
  inl, inr, length, length-erase, refl, sym, true, update, ℕ, ◌%◌, ◌&&◌, ◌==◌, ◌^◌, ◌||◌, ◌∙◌, ◌∷◌,
  ◌≡◌, suc,
}
use irch.Channel.{dec, inc}
use irch.Crule.{same_text}
use irch.Crule.Same.{same_text-sym}
use irch.Hash.{Table, strhash}
use irch.Hash.Content.{Holds, add-Holds, insert, rem-Holds, rename-Holds, without}
use irch.Monitor.{State, free_monitor, link, make_monitor}

-- `entries` are the monitors in use. The table holds them, no two of them have the same nick, each
-- of the two lists of links has the links of the other, only monitors in use are linked, and the counts
-- are those of the lists.
pub record IsLinked (crc32hash : ℕ → ℕ) (entries : List ℕ) (s : State) : Type 0 where
  pub holds : Holds crc32hash s.nick (λ p. contains p entries) s.table
  pub once : NoDup entries
  pub distinct :
      (p q : ℕ)
      → contains p entries ≡ true
      → contains q entries ≡ true
      → same_text (s.nick p) (s.nick q) ≡ true
      → p ≡ q
  pub both : (p c : ℕ) → contains c (s.watchers p) ≡ contains p (s.watched c)
  pub live : (p c : ℕ) → contains p (s.watched c) ≡ true → contains p entries ≡ true
  pub watchers_once : (p : ℕ) → NoDup (s.watchers p)
  pub watched_once : (c : ℕ) → NoDup (s.watched c)
  pub counted : s.count ≡ length entries % 2 ^ 32
  pub monitors_counted : (c : ℕ) → s.monitors c ≡ length (s.watched c) % 2 ^ 32

pub inc-count : (n : ℕ) → inc (n % 2 ^ 32) ≡ suc n % 2 ^ 32
unfolding inc
inc-count n = omega arith

pub dec-count : (n : ℕ) → dec (suc n % 2 ^ 32) ≡ n % 2 ^ 32
unfolding dec
dec-count n = omega arith

-- A list that does not hold `p` has the same monitors as before if the nick of `p` alone changes.
pub Holds-held :
    {crc32hash : ℕ → ℕ} {name : ℕ → List ℕ} {t : Table} (f g : ℕ → Bool)
    → ((p : ℕ) → f p ≡ g p)
    → Holds crc32hash name f t
    → Holds crc32hash name g t
Holds-held {crc32hash} {name} f g e h = record {
  chains = λ v p. h.chains v p ∙ ap (λ b. b && (strhash crc32hash (name p) == v)) (e p);
  once = h.once;
}

module _ {crc32hash : ℕ → ℕ} {entries : List ℕ} {s : State} (h : IsLinked crc32hash entries s) where
  -- A monitor that is not in use has no links.
  pub unused-watched : (p c : ℕ) → contains p entries ≡ false → contains p (s.watched c) ≡ false
  unused-watched p c new = elim (Bool-cases (contains p (s.watched c))) [
    | inr e ↦ e
    | inl e ↦ absurd (let l : contains p entries ≡ true = h.live p c e in ground arith)
  ]

  make_monitor-distinct :
      (p : ℕ) (n : List ℕ)
      → contains p entries ≡ false
      → ((q : ℕ) → contains q entries ≡ true → same_text n (s.nick q) ≡ false)
      → (q r : ℕ) → (q == p || contains q entries) ≡ true
      → (r == p || contains r entries) ≡ true
      → same_text (update s.nick p n q) (update s.nick p n r) ≡ true
      → q ≡ r
  make_monitor-distinct p n new other q r at at' same = elim (Bool-cases (q == p)) [
    | inl e ↦ ground (arith, other r)
    | inr e ↦ ground (arith, other q, same_text-sym (s.nick q) n, h.distinct q r)
  ]

  -- A monitor for a nick that no monitor in use has.
  pub make_monitor-IsLinked :
      (p : ℕ) (n : List ℕ)
      → contains p entries ≡ false
      → ((q : ℕ) → contains q entries ≡ true → same_text n (s.nick q) ≡ false)
      → IsLinked crc32hash (p ∷ entries) (make_monitor crc32hash s p n)
  unfolding make_monitor contains
  make_monitor-IsLinked p n new other = record {
    holds = unfold insert in add-Holds p (rename-Holds p n h.holds new) new;
    once = (new, h.once);
    distinct = make_monitor-distinct p n new other;
    both = λ q c. ground (arith, h.both q c, unused-watched p c new);
    live = λ q c at. ground (arith, h.live q c);
    watchers_once = λ q. ground (arith, h.watchers_once q);
    watched_once = h.watched_once;
    counted = ap inc h.counted ∙ inc-count (length entries);
    monitors_counted = h.monitors_counted;
  }

  pub link-IsLinked :
      (c p : ℕ) → contains p entries ≡ true → IsLinked crc32hash entries (link crc32hash s c p)
  unfolding link contains
  link-IsLinked c p at = elim (Bool-cases (contains c (s.watchers p))) [
    | inl e ↦ rw e h
    | inr e ↦ rw e (record {
      holds = h.holds;
      once = h.once;
      distinct = h.distinct;
      both = λ q d. ground (arith, h.both q d);
      live = λ q d l. ground (arith, h.live q d);
      watchers_once = λ q. elim (Bool-cases (q == p)) [
        | inl f ↦ rw f (e, h.watchers_once p)
        | inr f ↦ rw f (h.watchers_once q)
      ];
      watched_once = λ d. elim (Bool-cases (d == c)) [
        | inl f ↦ rw f (sym (h.both p c) ∙ e, h.watched_once c)
        | inr f ↦ rw f (h.watched_once d)
      ];
      counted = h.counted;
      monitors_counted = λ d. elim (Bool-cases (d == c)) [
        | inl f ↦ rw (f, h.monitors_counted c) (inc-count (length (s.watched c)))
        | inr f ↦ rw f (h.monitors_counted d)
      ];
    })
  ]

  -- A monitor that nobody watches is taken out.
  pub free_monitor-IsLinked :
      (p : ℕ)
      → contains p entries ≡ true
      → s.watchers p ≡ []
      → IsLinked crc32hash (erase p entries) (free_monitor crc32hash s p)
  unfolding free_monitor
  free_monitor-IsLinked p at unused =
      let keeps = λ (q : ℕ). contains-erase q p entries h.once in
      let none_left : (c : ℕ) → contains p (s.watched c) ≡ false =
        λ c. sym (h.both p c) ∙ unfold contains in rw unused refl in
      record {
        holds =
            unfold without in
            Holds-held (without (λ q. contains q entries) p) (λ q. contains q (erase p entries))
              (λ q. sym (keeps q)) (rem-Holds p h.holds);
        once = erase-NoDup p entries h.once;
        distinct = λ q r a b. h.distinct q r (ground (arith, keeps q)) (ground (arith, keeps r));
        both = h.both;
        live = λ q c l. ground (arith, keeps q, h.live q c, none_left c);
        watchers_once = h.watchers_once;
        watched_once = h.watched_once;
        counted = rw (h.counted, length-erase p entries at) (dec-count (length (erase p entries)));
        monitors_counted = h.monitors_counted;
      }
