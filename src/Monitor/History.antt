-- ===== src/Monitor/History.antt =====
-- ircd/monitor.c and ircd/m_monitor.c: the calls that the daemon makes, one after the other.
use irch.Base.{List, NoDup, [], contains, false, refl, some, sym, true, ℕ, ◌∙◌, ◌∷◌, ◌≡◌, Option}
use mathlib.Core.Path.{subst}
use irch.Hash.{strhash}
use irch.Monitor.{
  State, add_loop, find_monitor, monitor_add_nick, monitor_del_nick, monitor_list_clean,
  monitor_notify,
}
use irch.Monitor.Clean.{monitor_list_clean-Agrees}
use irch.Monitor.Delete.{monitor_del_nick-Agrees}
use irch.Monitor.Find.{
  Agrees, Watching, find_monitor-Found, monitor_add_nick-Agrees, quit, unwatch, watch,
}
use irch.Monitor.Told.{add_loop-own_name, told}
use irch.Monitor.Watches.{has, watches}

-- A daemon that has just started.
abbrev pub no_monitors : State
no_monitors = record {
  nick = λ p. [];
  watchers = λ p. [];
  table = λ v. [];
  count = 0;
  watched = λ c. [];
  monitors = λ c. 0;
}

-- The states that sequences of calls reach, each with what the clients watch according to the calls.
pub data Reach (crc32hash : ℕ → ℕ) : State → Watching → Type 0 where
  start : Reach crc32hash no_monitors (λ d k. false)
  -- The memory that is got is that of no monitor in the table.
  added :
      {s : State} {w : Watching} (c x : ℕ) (t : List ℕ) (mptr : ℕ)
      → Reach crc32hash s w
      → ((v : ℕ) → contains mptr (s.table v) ≡ false)
      → Reach crc32hash (monitor_add_nick crc32hash s c (x ∷ t) mptr) (watch w c (x ∷ t))
  deleted :
      {s s' : State} {w : Watching} (c x : ℕ) (t : List ℕ)
      → Reach crc32hash s w
      → monitor_del_nick crc32hash s c (x ∷ t) ≡ some s'
      → Reach crc32hash s' (unwatch w c (x ∷ t))
  cleaned :
      {s s' : State} {w : Watching} (c : ℕ)
      → Reach crc32hash s w
      → monitor_list_clean crc32hash s c ≡ some s'
      → Reach crc32hash s' (quit w c)
  notified :
      {s : State} {w : Watching} (x : ℕ) (t : List ℕ)
      → Reach crc32hash s w
      → Reach crc32hash (monitor_notify crc32hash s (x ∷ t)).0 w

module _ {crc32hash : ℕ → ℕ} where
  -- Two results of one call are one.
  same_result :
      {w : Watching} {call : Option State} (s s' : State)
      → call ≡ some s'
      → call ≡ some s
      → Agrees crc32hash w s
      → Agrees crc32hash w s'
  same_result {w} s s' e e' a = let same : s ≡ s' = cc in subst (Agrees crc32hash w) same a

  start-Agrees : Agrees crc32hash (λ d k. false) no_monitors
  unfolding contains watches has irch.Hash.first
  start-Agrees = record {
    entries = [];
    linked = record {
      holds = record { chains = λ v p. refl; once = λ v. tt };
      once = tt;
      distinct = λ p q at. cc;
      both = λ p c. refl;
      live = λ p c at. cc;
      watchers_once = λ p. tt;
      watched_once = λ c. tt;
      counted = refl;
      monitors_counted = λ c. refl;
    };
    shows = λ d k. refl;
  }

  Reach-Agrees : {s : State} {w : Watching} → Reach crc32hash s w → Agrees crc32hash w s
  unfolding monitor_notify
  Reach-Agrees start = start-Agrees
  Reach-Agrees (added c x t mptr r new) = monitor_add_nick-Agrees c x t mptr (Reach-Agrees r) new
  Reach-Agrees (deleted {s} {s'} c x t r e) =
      let (s2, returns, a) = monitor_del_nick-Agrees c x t (Reach-Agrees r) in
      same_result s2 s' e returns a
  Reach-Agrees (cleaned {s} {s'} c r e) =
      let (s2, returns, a) = monitor_list_clean-Agrees c (Reach-Agrees r) in
      same_result s2 s' e returns a
  Reach-Agrees (notified x t r) = (find_monitor-Found (Reach-Agrees r) x t).0

module _ {crc32hash : ℕ → ℕ} {s : State} {w : Watching} (r : Reach crc32hash s w) where
  -- Whatever calls came before, `monitor_notify` sends to exactly the clients that have asked for the nick
  -- and have not taken that back, upper and lower case being the same, and once to each.
  pub Reach-monitor_notify :
      (x : ℕ) (t : List ℕ)
      → NoDup (monitor_notify crc32hash s (x ∷ t)).1
        × ((d : ℕ) → contains d (monitor_notify crc32hash s (x ∷ t)).1 ≡ w d (x ∷ t))
  unfolding monitor_notify
  Reach-monitor_notify x t =
      let (b, same, found) = find_monitor-Found (Reach-Agrees r) x t in
      told b (x ∷ t) (find_monitor crc32hash s (x ∷ t)).1 found

  -- Whatever calls came before, `monitor_del_nick` and `monitor_list_clean` never read through null: for
  -- every client and nick that is not empty they return.
  pub Reach-returns :
      (c x : ℕ) (t : List ℕ)
      → ((s' : State) × (monitor_del_nick crc32hash s c (x ∷ t) ≡ some s'))
        × ((s' : State) × (monitor_list_clean crc32hash s c ≡ some s'))
  Reach-returns c x t =
      let (s', e, a) = monitor_del_nick-Agrees c x t (Reach-Agrees r) in
      let (s'', e', a') = monitor_list_clean-Agrees c (Reach-Agrees r) in ((s', e), (s'', e'))

  -- As long as anybody watches the name of a client, whatever nicks that client asks `add_monitor` for, no
  -- client watches anything else than before.
  pub Reach-add_loop :
      (limit x : ℕ) (t : List ℕ) (sptr d : ℕ) (nicks : List (List ℕ × ℕ)) (c : ℕ) (k : List ℕ)
      → w d (x ∷ t) ≡ true
      → watches (add_loop crc32hash limit (x ∷ t) s sptr nicks).0 c k ≡ watches s c k
  Reach-add_loop limit x t sptr d nicks c k seen =
      let a = Reach-Agrees r in
      (add_loop-own_name limit x t s sptr d nicks a seen).shows c k ∙ sym (a.shows c k)
