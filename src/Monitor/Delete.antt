-- ===== src/Monitor/Delete.antt =====
-- ircd/monitor.c: a client that stops watching one nick.
use irch.Base.{
  Bool-cases, List, arith, contains, false, if◌then◌else◌, inl, inr, not, refl, true, ℕ, ◌∙◌, ◌∷◌,
  ◌≡◌, Option, none, some, ap,
}
use irch.Crule.{same_text}
use irch.Crule.Same.{same_text-eq, same_text-sym, same_text_trans}
use irch.Monitor.{State, find_monitor, monitor_del_nick, unlink}
use irch.Monitor.Agrees.{is_watch, watches-cut, watches-release}
use irch.Monitor.Changes.{cut, cut-IsLinked, release-IsLinked, unlink-cut}
use irch.Monitor.Find.{Agrees, Found, Watching, find_monitor-Found, unwatch, watches-unwatch}

module _ {crc32hash : ℕ → ℕ} {w : Watching} {s : State} (a : Agrees crc32hash w s) where
  -- Nothing happens if no monitor of the client has the nick.
  unwatch_nothing :
      (c : ℕ) (n : List ℕ)
      → ((q : ℕ) → contains q (s.watched c) ≡ true → same_text n (s.nick q) ≡ false)
      → Agrees crc32hash (unwatch w c n) s
  unfolding unwatch
  unwatch_nothing c n nobody = record {
    entries = a.entries;
    linked = a.linked;
    shows = λ d k. watches-unwatch a.linked c n d k nobody ∙ rw (a.shows d k) refl;
  }

  -- Once a monitor has been found, no other that is in use has the nick.
  pub other_nick :
      (p q : ℕ) (n : List ℕ)
      → contains p a.entries ≡ true
      → same_text n (s.nick p) ≡ true
      → contains q a.entries ≡ true
      → same_text n (s.nick q) ≡ true
      → q ≡ p
  other_nick p q n at named at' named' =
      a.linked.distinct q p at' at
        (same_text_trans (s.nick q) n (s.nick p) (same_text-sym n (s.nick q) named') named)

  unlink-Agrees :
      (c p : ℕ) (n : List ℕ)
      → contains p a.entries ≡ true
      → same_text n (s.nick p) ≡ true
      → contains p (s.watched c) ≡ true
      → Agrees crc32hash (unwatch w c n) (unlink crc32hash s c p)
  unfolding unwatch is_watch
  unlink-Agrees c p n at named linked =
      let (entries, after) = release-IsLinked (cut-IsLinked a.linked c p linked) p at in
      rw (unlink-cut crc32hash s c p) (record {
        entries = entries;
        linked = after;
        shows = λ d k.
            watches-release crc32hash (cut s c p) p d k
            ∙ watches-cut a.linked c p d k linked
            ∙ rw (a.shows d k, same_text-eq k n (s.nick p) named) refl;
      })

del-Found :
    {crc32hash : ℕ → ℕ} {w : Watching} {s : State} (a : Agrees crc32hash w s) (c : ℕ) (n : List ℕ)
    (found : Option ℕ)
    → Found a.entries s n found
    → (s' : State) × (elim found [
      | none ↦ some s
      | some mptr ↦
          if not (contains c (s.watchers mptr))
          then some s
          else if contains mptr (s.watched c)
          then some (unlink crc32hash s c mptr)
          else none
    ]
        ≡ some s')
      × Agrees crc32hash (unwatch w c n) s'
del-Found {s = s} a c n none other =
    (s, refl, unwatch_nothing a c n (λ q at. other q (a.linked.live q c at)))
del-Found {crc32hash} {w} {s} a c n (some p) (at, named) =
    elim (Bool-cases (contains p (s.watched c))) [
      | inl e ↦
          (unlink crc32hash s c p, rw (a.linked.both p c, e) refl, unlink-Agrees a c p n at named e)
      | inr e ↦ (
        s,
        rw (a.linked.both p c, e) refl,
        unwatch_nothing a c n (λ q at'. elim (Bool-cases (same_text n (s.nick q))) [
          | inr f ↦ f
          | inl f ↦ absurd (
              let same : q ≡ p = other_nick a p q n at named (a.linked.live q c at') f in
              let no : contains q (s.watched c) ≡ false =
                ap (λ r. contains r (s.watched c)) same ∙ e in
              ground arith)
        ]),
      )
    ]

-- `monitor_del_nick` returns, and the client does not watch the nick any more.
pub monitor_del_nick-Agrees :
    {crc32hash : ℕ → ℕ} {w : Watching} {s : State} (c x : ℕ) (t : List ℕ)
    → Agrees crc32hash w s
    → (s' : State) × (monitor_del_nick crc32hash s c (x ∷ t) ≡ some s')
      × Agrees crc32hash (unwatch w c (x ∷ t)) s'
unfolding monitor_del_nick
monitor_del_nick-Agrees {crc32hash} {w} {s} c x t a =
    let (b, same, found) = find_monitor-Found a x t in
    del-Found b c (x ∷ t) (find_monitor crc32hash s (x ∷ t)).1 found
