-- ===== src/Monitor/Find.antt =====
-- ircd/monitor.c: the search for a nick, additions and removals against the nicks that the clients watch.
use irch.Base.{
  Bool-iff, Bool, Bool-cases, List, arith, contains, false, inl, inr, not, refl, sym, true, ℕ, ◌&&◌,
  ◌==◌, ◌||◌, ◌∙◌, ◌∷◌, ◌≡◌, Option, none, some, ap, update_self,
}
use irch.Crule.{same_text}
use irch.Crule.Same.{same_text_refl, same_text-eq, same_text-sym, same_text_trans}
use irch.Hash.{strhash}
use irch.Hash.Seek.{Answers, is_named, seek-Answers}
use irch.Monitor.{State, find_monitor, link, make_monitor, monitor_add_nick}
use irch.Monitor.Agrees.{is_watch, watches-link, watches-make_monitor}
use irch.Monitor.Linked.{IsLinked, link-IsLinked, make_monitor-IsLinked}
use irch.Monitor.Watches.{has-witness, watches}

-- Which client watches which nick, said without pointers and tables.
abbrev pub Watching : Type 0
Watching = ℕ → List ℕ → Bool

unfoldable pub watch : Watching → ℕ → List ℕ → Watching
watch w c n d k = is_watch c n d k || w d k

unfoldable pub unwatch : Watching → ℕ → List ℕ → Watching
unwatch w c n d k = w d k && not (is_watch c n d k)

unfoldable pub quit : Watching → ℕ → Watching
quit w c d k = w d k && not (d == c)

-- The state is consistent and shows `w`.
pub record Agrees (crc32hash : ℕ → ℕ) (w : Watching) (s : State) : Type 0 where
  pub entries : List ℕ
  pub linked : IsLinked crc32hash entries s
  pub shows : (d : ℕ) (k : List ℕ) → watches s d k ≡ w d k

module _ {crc32hash : ℕ → ℕ} {entries : List ℕ} {s : State} (h : IsLinked crc32hash entries s) where
  pub find_monitor-IsLinked :
      (x : ℕ) (t : List ℕ)
      → IsLinked crc32hash entries (find_monitor crc32hash s (x ∷ t)).0
        × Answers
            (λ p. contains p entries)
            (λ p. same_text (x ∷ t) (s.nick p))
            (find_monitor crc32hash s (x ∷ t)).1
  unfolding find_monitor is_named
  find_monitor-IsLinked x t =
      let (after, answers) = seek-Answers (λ p. true) (x ∷ t) h.holds in
      (
        record {
          holds = after;
          once = h.once;
          distinct = h.distinct;
          both = h.both;
          live = h.live;
          watchers_once = h.watchers_once;
          watched_once = h.watched_once;
          counted = h.counted;
          monitors_counted = h.monitors_counted;
        },
        answers,
      )

  -- A pointer that no chain holds is not in use.
  unused-entries : (p : ℕ) → ((v : ℕ) → contains p (s.table v) ≡ false) → contains p entries ≡ false
  unused-entries p new =
      let v : ℕ = strhash crc32hash (s.nick p) in ground (arith, new v, h.holds.chains v p)

  -- If no monitor of client `c` has the nick, then it does not matter that `c` stops watching it.
  pub watches-unwatch :
      (c : ℕ) (n : List ℕ) (d : ℕ) (k : List ℕ)
      → ((q : ℕ) → contains q (s.watched c) ≡ true → same_text n (s.nick q) ≡ false)
      → watches s d k ≡ (watches s d k && not (is_watch c n d k))
  unfolding watches is_watch
  watches-unwatch c n d k nobody =
      Bool-iff _ _
        (λ seen. elim (Bool-cases (is_watch c n d k)) [
          | inr e ↦ ground arith
          | inl e ↦ absurd (
              let same : d ≡ c = ground arith in
              let (q, at, t) = has-witness (λ p. same_text k (s.nick p)) (s.watched d) seen in
              let m : same_text n (s.nick q) ≡ true =
                same_text_trans n k (s.nick q) (same_text-sym k n (ground arith)) t in
              let at_c : contains q (s.watched c) ≡ true =
                ap (λ e. contains q (s.watched e)) (sym same) ∙ at in
              let no : same_text n (s.nick q) ≡ false = nobody q at_c in ground arith)
        ])
        (λ seen. ground arith)

-- A monitor in use with the nick, or none because there is no such monitor.
abbrev pub Found : List ℕ → State → List ℕ → Option ℕ → Type 0
Found entries s n = Answers (λ p. contains p entries) (λ p. same_text n (s.nick p))

module _ {crc32hash : ℕ → ℕ} {w : Watching} {s : State} (a : Agrees crc32hash w s) where
  -- A search finds rightly, and changes nothing that clients watch.
  pub find_monitor-Found :
      (x : ℕ) (t : List ℕ)
      → (b : Agrees crc32hash w (find_monitor crc32hash s (x ∷ t)).0) × (b.entries ≡ a.entries)
        × Found b.entries
            (find_monitor crc32hash s (x ∷ t)).0
            (x ∷ t)
            (find_monitor crc32hash s (x ∷ t)).1
  unfolding find_monitor watches
  find_monitor-Found x t =
      let (linked, answers) = find_monitor-IsLinked a.linked x t in
      (record { entries = a.entries; linked = linked; shows = a.shows }, refl, answers)

  link_known :
      (c p : ℕ) (n : List ℕ)
      → contains p a.entries ≡ true
      → same_text n (s.nick p) ≡ true
      → Agrees crc32hash (watch w c n) (link crc32hash s c p)
  unfolding watch is_watch
  link_known c p n at named = record {
    entries = a.entries;
    linked = link-IsLinked a.linked c p at;
    shows = λ d k.
        watches-link a.linked c p d k at ∙ rw (a.shows d k, same_text-eq k n (s.nick p) named) refl;
  }

pub link-Found :
    {crc32hash : ℕ → ℕ} {w : Watching} {s : State} (a : Agrees crc32hash w s) (c : ℕ) (n : List ℕ)
    (mptr : ℕ) (found : Option ℕ)
    → contains mptr a.entries ≡ false
    → Found a.entries s n found
    → Agrees crc32hash (watch w c n) (elim found [
      | some known ↦ link crc32hash s c known
      | none ↦ link crc32hash (make_monitor crc32hash s mptr n) c mptr
    ])
link-Found a c n mptr (some p) unused (at, named) = link_known a c p n at named
link-Found {crc32hash} {w} {s} a c n mptr none unused other =
    let made : Agrees crc32hash w (make_monitor crc32hash s mptr n) = record {
      entries = mptr ∷ a.entries;
      linked = make_monitor-IsLinked a.linked mptr n unused other;
      shows = λ d k. watches-make_monitor a.linked mptr n d k unused ∙ a.shows d k;
    } in
    link_known made c mptr n (unfold contains in ground arith)
      (unfold make_monitor in rw (update_self s.nick mptr n) (same_text_refl n))

pub monitor_add_nick-Agrees :
    {crc32hash : ℕ → ℕ} {w : Watching} {s : State} (c x : ℕ) (t : List ℕ) (mptr : ℕ)
    → Agrees crc32hash w s
    → ((v : ℕ) → contains mptr (s.table v) ≡ false)
    → Agrees crc32hash (watch w c (x ∷ t)) (monitor_add_nick crc32hash s c (x ∷ t) mptr)
unfolding monitor_add_nick
monitor_add_nick-Agrees {crc32hash} {w} {s} c x t mptr a new =
    let (b, same, found) = find_monitor-Found a x t in
    link-Found b c (x ∷ t) mptr (find_monitor crc32hash s (x ∷ t)).1
      (ap (contains mptr) same ∙ unused-entries a.linked mptr new) found
