-- ===== src/Channel/Expire.antt =====
-- ircd/destruct_event.c: the timer that destroys the channels whose events have expired.
use irch.Base.{
  Bool, Bool-cases, List, [], ap, arith, contains, false, if◌then◌else◌, inl, inr, leb, length, not,
  refl, suc, sym, true, zero, ℕ, ◌∙◌, ◌∷◌, ◌≡◌, ◌≤◌,
}
use mathlib.Core.Path.{subst}
use irch.Channel.{Channels, Config, DestructEvent, State}
use irch.Channel.Operations.{destruct_channel, remove_destruct_event, without_event}

-- `minute_list` or `days_list`, from the bottom on.
unfoldable pub events : Bool → Channels → List DestructEvent
events true c = c.minute_list
events false c = c.days_list

unfoldable pub expire_first : Config → State → ℕ → State
expire_first cfg s chptr =
    destruct_channel cfg (record s { chans = remove_destruct_event s.chans chptr }) chptr

-- The loop for one of the lists, with a round for each of its events.
unfoldable pub expire_loop : Config → ℕ → Bool → ℕ → State → State
expire_loop cfg now minute zero s = s
expire_loop cfg now minute (suc fuel) s = elim (events minute s.chans) [
  | [] ↦ s
  | e ∷ es ↦ elim (leb e.expires now) [
    | false ↦ s
    | true ↦ expire_loop cfg now minute fuel (expire_first cfg s e.chptr)
  ]
]

unfoldable pub exec_expired_destruct_events : Config → ℕ → State → State
exec_expired_destruct_events cfg now s =
    let s' = expire_loop cfg now true (length s.chans.minute_list) s in
    expire_loop cfg now false (length s'.chans.days_list) s'

-- The events that have not expired.
unfoldable pub pending : ℕ → List DestructEvent → List DestructEvent
pending now [] = []
pending now (e ∷ es) =
    let onward = pending now es in if leb e.expires now then onward else e ∷ onward

abbrev channels_of : List DestructEvent → List ℕ
channels_of [] = []
channels_of (e ∷ es) = e.chptr ∷ channels_of es

abbrev AllFrom : ℕ → List DestructEvent → Type 0
AllFrom k [] = Unit
AllFrom k (e ∷ es) = (k ≤ e.expires) × AllFrom k es

-- The events stand in the order in which they expire.
abbrev pub IsSorted : List DestructEvent → Type 0
IsSorted [] = Unit
IsSorted (e ∷ es) = AllFrom e.expires es × IsSorted es

-- No channel has an event in both lists.
abbrev pub Apart : List DestructEvent → List DestructEvent → Type 0
Apart [] others = Unit
Apart (e ∷ es) others = (contains e.chptr (channels_of others) ≡ false) × Apart es others

without_absent :
    (chptr : ℕ) (es : List DestructEvent)
    → contains chptr (channels_of es) ≡ false
    → without_event chptr es ≡ es
unfolding without_event contains
without_absent chptr [] h = refl
without_absent chptr (e ∷ es) h = ground (arith, without_absent chptr es)

pending_all :
    (now k : ℕ) (es : List DestructEvent) → leb k now ≡ false → AllFrom k es → pending now es ≡ es
unfolding pending
pending_all now k [] h from = refl
pending_all now k (e ∷ es) h from = ground (arith, pending_all now k es h from.1)

absent_pending :
    (now chptr : ℕ) (es : List DestructEvent)
    → contains chptr (channels_of es) ≡ false
    → contains chptr (channels_of (pending now es)) ≡ false
unfolding pending contains
absent_pending now chptr [] h = refl
absent_pending now chptr (e ∷ es) h = ground (arith, absent_pending now chptr es)

Apart-pending : (now : ℕ) (ds es : List DestructEvent) → Apart ds es → Apart ds (pending now es)
Apart-pending now [] es h = tt
Apart-pending now (d ∷ ds) es (h, hs) =
    (absent_pending now d.chptr es h, Apart-pending now ds es hs)

events-expire_first :
    (cfg : Config) (minute : Bool) (s : State) (chptr : ℕ)
    → events minute (expire_first cfg s chptr).chans ≡ without_event chptr (events minute s.chans)
unfolding expire_first destruct_channel remove_destruct_event events
events-expire_first cfg true s chptr = refl
events-expire_first cfg false s chptr = refl

without_first : (e : DestructEvent) (es : List DestructEvent) → without_event e.chptr (e ∷ es) ≡ es
unfolding without_event
without_first e es = ground arith

module _ (cfg : Config) (now : ℕ) (minute : Bool) where
  expire_loop-pending :
      (s : State) (es : List DestructEvent)
      → events minute s.chans ≡ es
      → IsSorted es
      → Apart es (events (not minute) s.chans)
      → (events minute (expire_loop cfg now minute (length es) s).chans ≡ pending now es)
        × (events (not minute) (expire_loop cfg now minute (length es) s).chans
            ≡ events (not minute) s.chans)
  unfolding expire_loop pending
  expire_loop-pending s [] at sorted apart = (at, refl)
  expire_loop-pending s (e ∷ es) at (from, sorted) (absent, apart) =
      elim (Bool-cases (leb e.expires now)) [
        | inr h ↦
            rw (expire_loop, at, h)
              (at ∙ ap (λ l. e ∷ l) (sym (pending_all now e.expires es h from)), refl)
        | inl h ↦
            let s' : State = expire_first cfg s e.chptr in
            let first =
              events-expire_first cfg minute s e.chptr
              ∙ ap (without_event e.chptr) at
              ∙ without_first e es in
            let same =
              events-expire_first cfg (not minute) s e.chptr
              ∙ without_absent e.chptr (events (not minute) s.chans) absent in
            let (done, others) = expire_loop-pending s' es first sorted (rw same apart) in
            rw (expire_loop, at, h) (done, others ∙ same)
      ]

-- If the events of each list stand in the order in which they expire, and no channel has an event in
-- both lists, then the timer leaves exactly the events that have not expired.
pub exec_expired_destruct_events-pending :
    (cfg : Config) (now : ℕ) (s : State)
    → IsSorted s.chans.minute_list
    → IsSorted s.chans.days_list
    → Apart s.chans.minute_list s.chans.days_list
    → Apart s.chans.days_list s.chans.minute_list
    → ((exec_expired_destruct_events cfg now s).chans.minute_list ≡ pending now s.chans.minute_list)
      × ((exec_expired_destruct_events cfg now s).chans.days_list ≡ pending now s.chans.days_list)
unfolding exec_expired_destruct_events events
exec_expired_destruct_events-pending cfg now s sorted sorted' apart apart' =
    let s' : State = expire_loop cfg now true (length s.chans.minute_list) s in
    let (minutes, days) =
      expire_loop-pending cfg now true s s.chans.minute_list refl sorted apart in
    let (days', minutes') =
      expire_loop-pending cfg now false s' s'.chans.days_list refl
        (subst IsSorted (sym days) sorted')
        (subst (λ l. Apart l s'.chans.minute_list) (sym days)
          (subst (Apart s.chans.days_list) (sym minutes)
            (Apart-pending now s.chans.days_list s.chans.minute_list apart'))) in
    (minutes' ∙ minutes, days' ∙ ap (pending now) days)
