-- ===== src/Whowas/Reached.antt =====
-- ircd/whowas.c: the calls that the daemon makes, one after the other.
use irch.Base.{Bool, List, Option, [], none, arith, refl, some, ℕ, ◌<◌, ◌≡◌, ◌≤◌}
use irch.Whowas.{
  Client, History, Whowas, add_history, first_recent, get_history, off_history, whowas_realloc,
}
use irch.Whowas.Index.{IsIndexed, get_history-first_recent, with_hash}
use irch.Whowas.Operations.{
  Succeeds, add_history-IsIndexed, off_history-IsIndexed, whowas_realloc-IsIndexed,
}

-- The histories that a sequence of calls reaches from an empty one, each with FEAT_NICKNAMEHISTORYLENGTH
-- as it then
-- is, at least 2.
pub data Reach : ℕ → History → Type 0 where
  start :
      (max : ℕ) (entries : ℕ → Whowas)
      → 1 < max
      → Reach max (record {
        entries = entries;
        ww_list = [];
        ww_alloc = 0;
        whowashash = λ v. [];
        cli_whowas = λ c. [];
        fresh = 0;
      })
  -- A client quits or changes its nick.
  added :
      {max : ℕ} {h h' : History} (t : ℕ) (c : Client) (still_on : Bool)
      → Reach max h
      → add_history max t h c still_on ≡ some h'
      → Reach max h'
  -- A client that was still on quits.
  off : {max : ℕ} {h : History} (client : ℕ) → Reach max h → Reach max (off_history h client)
  -- The feature is set.
  resized :
      {max : ℕ} {h h' : History} (max' : ℕ)
      → 1 < max'
      → Reach max h
      → whowas_realloc max' h ≡ some h'
      → Reach max' h'

-- What every reached history is.
abbrev Kept : ℕ → History → Type 0
Kept max h = IsIndexed h × (h.ww_alloc ≤ max) × (1 < max)

succeeded :
    (P : History → Type 0) (o : Option History) (h : History) → o ≡ some h → Succeeds P o → P h
succeeded P none h e s = elim s [ ]
succeeded P (some a) h e s = let same : a ≡ h = cc in rw (← same) s

Reach-Kept : {max : ℕ} {h : History} → Reach max h → Kept max h
unfolding with_hash off_history
Reach-Kept (start max entries some_room) = (
  record { chains = λ v. refl; hashed = tt; known = tt; distinct = tt; counted = refl },
  omega arith,
  some_room,
)
Reach-Kept (added {max} {h} {h'} t c still_on r e) =
    let (indexed, within, some_room) = Reach-Kept r in
    let kept =
      succeeded (λ (k : History). IsIndexed k × (k.ww_alloc ≤ max)) (add_history max t h c still_on)
        h' e (add_history-IsIndexed max t h c still_on some_room within indexed) in
    (kept.0, kept.1, some_room)
Reach-Kept (off {h = h} client r) =
    let (indexed, within, some_room) = Reach-Kept r in
    (off_history-IsIndexed h client indexed, within, some_room)
Reach-Kept (resized {h = h} {h' = h'} max' some_room r e) =
    let kept =
      succeeded (λ (k : History). IsIndexed k × (k.ww_alloc ≤ max')) (whowas_realloc max' h) h' e
        (whowas_realloc-IsIndexed max' h (omega arith) (Reach-Kept r).0) in
    (kept.0, kept.1, some_room)

-- Whatever nicks were added, clients have quit and lengths of at least 2 were set before, from an empty
-- history on:
-- `get_history`, which looks at one hash chain alone, finds what a search of the whole list finds, and
-- there are no more structures than the history's length.
pub Reach-get_history :
    {max : ℕ} {h : History} (t limit : ℕ) (nick : List ℕ)
    → Reach max h
    → (get_history t limit h nick ≡ first_recent t limit nick h.entries h.ww_list)
      × (h.ww_alloc ≤ max)
Reach-get_history {h = h} t limit nick r =
    let kept = Reach-Kept r in (get_history-first_recent t limit h nick kept.0, kept.1)
