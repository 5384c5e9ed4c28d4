-- ===== src/Monitor/Changes.antt =====
-- ircd/monitor.c: what a client stops watching, and what a search finds.
use irch.Base.{
  Bool-cases, List, List-cases, arith, contains, contains-erase, erase, erase-NoDup, inl, inr,
  length, length-erase, refl, true, update, ℕ, ◌%◌, ◌==◌, ◌^◌, ◌∙◌, ◌∷◌, ◌≡◌, suc,
}
use irch.Channel.{dec}
use irch.Monitor.{State, free_monitor, is_empty, release, unlink, clean_one}
use irch.Monitor.Linked.{IsLinked, dec-count, free_monitor-IsLinked}

-- Client `c` stops watching monitor `p`, which stays.
abbrev pub cut : State → ℕ → ℕ → State
cut s c p = record s {
  watchers = update s.watchers p (erase c (s.watchers p));
  watched = update s.watched c (erase p (s.watched c));
  monitors = update s.monitors c (dec (s.monitors c));
}

uncount-release :
    (crc32hash : ℕ → ℕ) (l : State) (c p : ℕ)
    → record (release crc32hash l p) {
      monitors =
          update (release crc32hash l p).monitors c (dec ((release crc32hash l p).monitors c));
    }
      ≡ release crc32hash (record l { monitors = update l.monitors c (dec (l.monitors c)) }) p
unfolding release free_monitor
uncount-release crc32hash l c p = elim (Bool-cases (is_empty (l.watchers p))) [
  | inl e ↦ rw e refl
  | inr e ↦ rw e refl
]

pub unlink-cut :
    (crc32hash : ℕ → ℕ) (s : State) (c p : ℕ)
    → unlink crc32hash s c p ≡ release crc32hash (cut s c p) p
unfolding unlink
unlink-cut crc32hash s c p =
    uncount-release crc32hash
      (record s {
        watchers = update s.watchers p (erase c (s.watchers p));
        watched = update s.watched c (erase p (s.watched c));
      })
      c p

-- The state in which client `c` has the links of `ms` alone, as it has for `monitor_list_clean` before
-- the round for the first of them.
abbrev pub over : State → ℕ → List ℕ → State
over s c ms = record s {
  watched = update s.watched c ms;
  monitors = update s.monitors c (length ms % 2 ^ 32);
}

over-release :
    (crc32hash : ℕ → ℕ) (l : State) (c m : ℕ) (ms : List ℕ)
    → over (release crc32hash l m) c ms ≡ release crc32hash (over l c ms) m
unfolding release free_monitor
over-release crc32hash l c m ms = elim (Bool-cases (is_empty (l.watchers m))) [
  | inl e ↦ rw e refl
  | inr e ↦ rw e refl
]

recut_watched :
    (f : ℕ → List ℕ) (c m : ℕ) (ms : List ℕ) (d : ℕ)
    → update f c ms d ≡ update (update f c (m ∷ ms)) c (erase m (update f c (m ∷ ms) c)) d
unfolding erase
recut_watched f c m ms d = ground arith

recut_monitors :
    (f : ℕ → ℕ) (c n d : ℕ)
    → update f c (n % 2 ^ 32) d
      ≡ update (update f c (suc n % 2 ^ 32)) c (dec (update f c (suc n % 2 ^ 32) c)) d
recut_monitors f c n d = ground (arith, dec-count n)

-- The round for link `m` is a cut, with what the client's own list and count will become.
pub clean_one-over :
    (crc32hash : ℕ → ℕ) (s : State) (c m : ℕ) (ms : List ℕ)
    → over (clean_one crc32hash s c m) c ms ≡ release crc32hash (cut (over s c (m ∷ ms)) c m) m
unfolding clean_one
clean_one-over crc32hash s c m ms =
    let l : State = record s { watchers = update s.watchers m (erase c (s.watchers m)) } in
    over-release crc32hash l c m ms ∙ λ i.
    release crc32hash
      (record l {
        watched = λ d. recut_watched s.watched c m ms d i;
        monitors = λ d. recut_monitors s.monitors c (length ms) d i;
      })
      m

module _ {crc32hash : ℕ → ℕ} {entries : List ℕ} {s : State} (h : IsLinked crc32hash entries s) where
  pub cut-IsLinked :
      (c p : ℕ) → contains p (s.watched c) ≡ true → IsLinked crc32hash entries (cut s c p)
  cut-IsLinked c p at = record {
    holds = h.holds;
    once = h.once;
    distinct = h.distinct;
    both = λ q d. ground (
      arith,
      h.both q d,
      contains-erase d c (s.watchers p) (h.watchers_once p),
      contains-erase q p (s.watched c) (h.watched_once c),
    );
    live = λ q d l. ground (arith, h.live q d, contains-erase q p (s.watched c) (h.watched_once c));
    watchers_once =
        λ q. ground (arith, h.watchers_once q, erase-NoDup c (s.watchers p) (h.watchers_once p));
    watched_once =
        λ d. ground (arith, h.watched_once d, erase-NoDup p (s.watched c) (h.watched_once c));
    counted = h.counted;
    monitors_counted = λ d. elim (Bool-cases (d == c)) [
      | inl f ↦
          rw (f, h.monitors_counted c, length-erase p (s.watched c) at)
            (dec-count (length (erase p (s.watched c))))
      | inr f ↦ rw f (h.monitors_counted d)
    ];
  }

  pub release-IsLinked :
      (p : ℕ)
      → contains p entries ≡ true
      → (entries' : List ℕ) × IsLinked crc32hash entries' (release crc32hash s p)
  unfolding release is_empty
  release-IsLinked p at = elim (List-cases (s.watchers p)) [
    | inl e ↦ (erase p entries, rw e (free_monitor-IsLinked h p at e))
    | inr (c, rest, e) ↦ (entries, rw e h)
  ]
