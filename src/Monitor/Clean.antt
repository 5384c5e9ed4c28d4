-- ===== src/Monitor/Clean.antt =====
-- ircd/monitor.c: a client that stops watching everything.
use irch.Base.{
  Bool-cases, List, List-cases, [], arith, contains, false, inl, inr, length, refl, sym, true,
  update, ℕ, ◌%◌, ◌==◌, ◌^◌, ◌∙◌, ◌∷◌, ◌≡◌, some, ap, update_self,
}
use mathlib.Core.Path.{subst}
use irch.Monitor.{State, clean_loop, clean_one, monitor_list_clean, release}
use irch.Monitor.Agrees.{is_watch, watches-cut, watches-release}
use irch.Monitor.Changes.{clean_one-over, cut, cut-IsLinked, over, release-IsLinked}
use irch.Monitor.Find.{Agrees, Watching, quit}
use irch.Monitor.Linked.{IsLinked}
use irch.Monitor.Watches.{has, watches}

-- Behind the loop the state is consistent with no links of the client's, and the other clients watch
-- what they did.
abbrev Cleaned : (ℕ → ℕ) → State → State → ℕ → Type 0
Cleaned crc32hash s s' c =
    ((entries : List ℕ) × IsLinked crc32hash entries s')
    × ((d : ℕ) (k : List ℕ) → d == c ≡ false → watches s' d k ≡ watches s d k)

watches-elsewhere :
    {crc32hash : ℕ → ℕ} {entries : List ℕ} {s : State} (h : IsLinked crc32hash entries s)
    (c p d : ℕ) (k : List ℕ)
    → contains p (s.watched c) ≡ true
    → d == c ≡ false
    → watches (release crc32hash (cut s c p) p) d k ≡ watches s d k
unfolding is_watch
watches-elsewhere {crc32hash} {s = s} h c p d k at e =
    watches-release crc32hash (cut s c p) p d k ∙ watches-cut h c p d k at ∙ rw e (ground arith)

first_link-over :
    (s : State) (c m : ℕ) (ms : List ℕ) → contains m ((over s c (m ∷ ms)).watched c) ≡ true
unfolding contains
first_link-over s c m ms = ground arith

clean_loop-Cleaned :
    {crc32hash : ℕ → ℕ} {entries : List ℕ} (s : State) (c : ℕ) (ms : List ℕ)
    → IsLinked crc32hash entries (over s c ms)
    → (s' : State) × (clean_loop crc32hash s c ms ≡ some s')
      × Cleaned crc32hash (over s c ms) (over s' c []) c
unfolding clean_loop
clean_loop-Cleaned {entries = entries} s c [] h = (s, refl, ((entries, h), λ d k e. refl))
clean_loop-Cleaned {crc32hash} {entries} s c (m ∷ ms) h =
    let v : State = over s c (m ∷ ms) in
    let first_link : contains m (v.watched c) ≡ true = first_link-over s c m ms in
    let at : contains c (s.watchers m) ≡ true = h.both m c ∙ first_link in
    let (entries', after) =
      release-IsLinked (cut-IsLinked h c m first_link) m (h.live m c first_link) in
    let (s', returns, (linked, elsewhere)) =
      clean_loop-Cleaned {entries = entries'} (clean_one crc32hash s c m) c ms
        (subst (IsLinked crc32hash entries') (sym (clean_one-over crc32hash s c m ms)) after) in
    (
      s',
      rw (clean_loop, at) returns,
      (
        linked,
        λ d k e.
            elsewhere d k e
            ∙ ap (λ t. watches t d k) (clean_one-over crc32hash s c m ms)
            ∙ watches-elsewhere h c m d k first_link e,
      ),
    )

update_same : {A : Type 0} (f : ℕ → A) (k : ℕ) (v : A) (n : ℕ) → f k ≡ v → update f k v n ≡ f n
update_same f k v n e = elim (Bool-cases (n == k)) [
  | inl t ↦ let same : n ≡ k = ground arith in rw t (sym e ∙ ap f (sym same))
  | inr t ↦ rw t refl
]

-- At first the list of the client is its own.
over_self :
    {crc32hash : ℕ → ℕ} {entries : List ℕ} {s : State} (c : ℕ) (ms : List ℕ)
    → IsLinked crc32hash entries s
    → s.watched c ≡ ms
    → over s c ms ≡ s
over_self {s = s} c ms h e i = record s {
  watched = λ d. update_same s.watched c ms d e i;
  monitors = λ d.
      update_same s.monitors c (length ms % 2 ^ 32) d
        (h.monitors_counted c ∙ ap (λ l. length l % 2 ^ 32) e) i;
}

shows_nothing :
    (w : Watching) (s : State) (c d : ℕ) (k : List ℕ)
    → s.watched c ≡ []
    → d == c ≡ true
    → watches s d k ≡ quit w c d k
unfolding watches has irch.Hash.first quit
shows_nothing w s c d k e t = let same : d ≡ c = ground arith in rw (same, e) (ground arith)

clean_nothing :
    {crc32hash : ℕ → ℕ} {w : Watching} {s : State} (a : Agrees crc32hash w s) (c : ℕ)
    → s.watched c ≡ []
    → Agrees crc32hash (quit w c) s
unfolding quit
clean_nothing {w = w} {s = s} a c e = record {
  entries = a.entries;
  linked = a.linked;
  shows = λ d k. elim (Bool-cases (d == c)) [
    | inl t ↦ shows_nothing w s c d k e t
    | inr t ↦ a.shows d k ∙ rw t (ground arith)
  ];
}

-- `monitor_list_clean` returns, and the client does not watch anything any more.
pub monitor_list_clean-Agrees :
    {crc32hash : ℕ → ℕ} {w : Watching} {s : State} (c : ℕ)
    → Agrees crc32hash w s
    → (s' : State) × (monitor_list_clean crc32hash s c ≡ some s') × Agrees crc32hash (quit w c) s'
unfolding monitor_list_clean
monitor_list_clean-Agrees {crc32hash} {w} {s} c a = elim (List-cases (s.watched c)) [
  | inl e ↦ (s, rw (monitor_list_clean, e) refl, clean_nothing a c e)
  | inr (m, ms, e) ↦
      let start : over s c (m ∷ ms) ≡ s = over_self c (m ∷ ms) a.linked e in
      let (s', returns, (linked, elsewhere)) =
        clean_loop-Cleaned {entries = a.entries} s c (m ∷ ms)
          (subst (IsLinked crc32hash a.entries) (sym start) a.linked) in
      (
        over s' c [],
        rw (monitor_list_clean, e, returns) refl,
        record {
          entries = linked.0;
          linked = linked.1;
          shows = λ d k. elim (Bool-cases (d == c)) [
            | inl t ↦ shows_nothing w (over s' c []) c d k (update_self s'.watched c []) t
            | inr t ↦
                elsewhere d k t
                ∙ ap (λ v. watches v d k) start
                ∙ a.shows d k
                ∙ (unfold quit in rw t (ground arith))
          ];
        },
      )
]
