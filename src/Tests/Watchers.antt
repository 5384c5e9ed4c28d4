-- ===== src/Tests/Watchers.antt =====
-- ircd/monitor.c and ircd/m_monitor.c on two clients.
use irch.Base.{
  Bool-cases, List, NoDup, Option, [], arith, codes, contains, false, inl, inr, none, refl, some,
  true, ℕ, ◌==◌, ◌∷◌, ◌≡◌,
}
use irch.Hash.{Table}
use irch.Monitor.{
  State, add_loop, monitor_add_nick, monitor_del_nick, monitor_list_clean, monitor_notify,
}
use irch.Monitor.Find.{Watching, watch}
use irch.Monitor.History.{
  Reach, Reach-add_loop, Reach-monitor_notify, Reach-returns, added, no_monitors, start,
}
use irch.Monitor.Watches.{watches}

abbrev crc32hash : ℕ → ℕ
crc32hash = λ v. 7

-- Client 1 asks for `Run`, and client 2 for `RUN`.
abbrev one : State
one = monitor_add_nick crc32hash no_monitors 1 (codes "Run") 10

abbrev two : State
two = monitor_add_nick crc32hash one 2 (codes "RUN") 11

abbrev asked : Watching
asked = watch (watch (λ d k. false) 1 (codes "Run")) 2 (codes "RUN")

fresh : (v : ℕ) → contains 11 (one.table v) ≡ false
unfolding monitor_add_nick irch.Monitor.find_monitor irch.Monitor.make_monitor irch.Monitor.link
    irch.Channel.inc irch.Hash.seek irch.Hash.add irch.Hash.strhash irch.Hash.strhash_loop
    irch.Hash.hash_byte irch.Hash.first contains
fresh v = elim (Bool-cases (v == 7)) [ inl e ↦ ground (arith, e) | inr e ↦ ground (arith, e) ]

two-Reach : Reach crc32hash two asked
two-Reach =
    added 2 b'R' (codes "UN") 11 (added 1 b'R' (codes "un") 10 start (unfold contains in λ v. refl))
      fresh

Reach-monitor_notify_example :
    NoDup (monitor_notify crc32hash two (codes "run")).1
    × ((d : ℕ) → contains d (monitor_notify crc32hash two (codes "run")).1 ≡ asked d (codes "run"))
Reach-monitor_notify_example = Reach-monitor_notify two-Reach b'r' (codes "un")

Reach-returns_example :
    ((s' : State) × (monitor_del_nick crc32hash two 2 (codes "run") ≡ some s'))
    × ((s' : State) × (monitor_list_clean crc32hash two 2 ≡ some s'))
Reach-returns_example = Reach-returns two-Reach 2 b'r' (codes "un")

run_seen : asked 1 (codes "Run") ≡ true
unfolding watch irch.Monitor.Agrees.is_watch irch.Crule.same_text irch.Chattr.to_lower
run_seen = refl

-- Client 3 has the name `Run`, for which client 1 watches.
Reach-add_loop_example :
    watches
      (add_loop crc32hash 128 (codes "Run") two 3 ((codes "Isomer", 12) ∷ [])).0
      3
      (codes "Isomer")
    ≡ watches two 3 (codes "Isomer")
Reach-add_loop_example =
    Reach-add_loop two-Reach 128 b'R' (codes "un") 3 1 ((codes "Isomer", 12) ∷ []) 3
      (codes "Isomer") run_seen

both_told : (monitor_notify crc32hash two (codes "run")).1 ≡ 2 ∷ 1 ∷ []
unfolding monitor_notify monitor_add_nick irch.Monitor.find_monitor irch.Monitor.make_monitor
    irch.Monitor.link irch.Channel.inc irch.Hash.seek irch.Hash.add irch.Hash.strhash
    irch.Hash.strhash_loop irch.Hash.hash_byte irch.Hash.first irch.Crule.same_text
    irch.Chattr.to_lower irch.Base.erase contains
both_told = refl
