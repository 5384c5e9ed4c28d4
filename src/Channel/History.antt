-- ===== src/Channel/History.antt =====
-- ircd/channel.c: the joins and departures that follow one another.
use irch.Base.{
  Option-cases, [], arith, contains, false, inl, inr, none, refl, some, sym, ◌∙◌, update, ℕ, ◌+◌,
  ◌<◌, ◌^◌, ◌≡◌,
}
use irch.Channel.{Channels, Config, Guests, Links, State, find_member_link}
use irch.Channel.Find.{find_member_link-IsFound}
use irch.Channel.Join.{link-IsLinked}
use irch.Channel.Left.{remove_user_from_channel-Removed}
use irch.Channel.Linked.{IsLinked, is_live, live_in}
use irch.Channel.Operations.{
  add_user_to_channel, remove_user_from_all_channels, remove_user_from_channel,
}
use irch.Channel.Quit.{remove_user_from_all_channels-Quit}

-- No membership has been allocated.
abbrev pub no_links : Links
no_links = record {
  user = λ m. 0;
  channel = λ m. 0;
  status = λ m. 0;
  oplevel = λ m. 0;
  members = λ c. [];
  users = λ c. 0;
  channels = λ u. [];
  joined = λ u. 0;
  free = [];
  alloc = 0;
}

some_eq : {A : Type 0} {a b : A} → some a ≡ some b → a ≡ b
some_eq e = cc

module _ (cfg : Config) where
  -- What the daemon does to the memberships, at a time `now`.
  pub data Step (s : State) : State → Type 0 where
    -- `find_member_link` has answered null, as the handlers of JOIN, BURST and CREATE check.
    joined :
        (c u flags level : ℕ)
        → cfg.is_server u ≡ false
        → find_member_link cfg s.links c u ≡ none
        → s.links.users c + 1 < 2 ^ 32
        → s.links.joined u + 1 < 2 ^ 32
        → Step s (add_user_to_channel s c u flags level)
    -- A user leaves a channel or is kicked, whether on it or not.
    parted :
        {s' : State} (now c u : ℕ)
        → cfg.is_server u ≡ false
        → remove_user_from_channel cfg now s u c ≡ some s'
        → Step s s'
    -- A user leaves all channels.
    quit :
        {s' : State} (now u : ℕ)
        → cfg.is_server u ≡ false
        → remove_user_from_all_channels cfg now s u ≡ some s'
        → Step s s'
    -- Kicks, modes and bans change the status of a membership and what belongs to no list of memberships.
    changed :
        (m status level : ℕ) (g : Guests) (c : Channels)
        → Step s (record {
          links = record s.links {
            status = update s.links.status m status;
            oplevel = update s.links.oplevel m level;
          };
          guests = g;
          chans = c;
        })

  -- The states that a sequence of such steps reaches from no memberships at all.
  pub data Reach : State → Type 0 where
    start : (g : Guests) (c : Channels) → Reach (record { links = no_links; guests = g; chans = c })
    next : {s s' : State} → Reach s → Step s s' → Reach s'

no_links-IsLinked : IsLinked no_links
unfolding is_live live_in contains
no_links-IsLinked = record {
  of_channel = λ c m. ground arith;
  of_user = λ u m. ground arith;
  members_once = λ c. tt;
  channels_once = λ u. tt;
  users_counted = λ c. refl;
  joined_counted = λ u. refl;
  users_fit = λ c. omega arith;
  joined_fit = λ u. omega arith;
  free_known = λ m h. cc;
  free_once = tt;
  single = λ m n a b u c. absurd (ground arith);
}

module _ (cfg : Config) where
  part-IsLinked :
      (s s' : State) (now c u : ℕ)
      → cfg.is_server u ≡ false
      → remove_user_from_channel cfg now s u c ≡ some s'
      → IsLinked s.links
      → IsLinked s'.links
  unfolding remove_user_from_channel
  part-IsLinked s s' now c u user e h = elim (Option-cases (find_member_link cfg s.links c u)) [
    | inl off ↦
        let stays : some s ≡ remove_user_from_channel cfg now s u c =
          rw (remove_user_from_channel, off) refl in
        let same : s ≡ s' = some_eq (stays ∙ e) in rw (← same) h
    | inr (m, on) ↦
        let (s1, runs, r, fewer) =
          remove_user_from_channel-Removed cfg now s c u m h
            (find_member_link-IsFound h c u cfg (some m) user on) user in
        rw (← some_eq (sym runs ∙ e)) r.linked
  ]

  Step-IsLinked : {s s' : State} → Step cfg s s' → IsLinked s.links → IsLinked s'.links
  unfolding add_user_to_channel is_live
  Step-IsLinked (joined c u flags level user off users_room joined_room) h =
      link-IsLinked c u flags level h (find_member_link-IsFound h c u cfg none user off) users_room
        joined_room
  Step-IsLinked {s} {s'} (parted now c u user e) h = part-IsLinked s s' now c u user e h
  Step-IsLinked {s} (quit now u user e) h =
      let (s1, runs, q) = remove_user_from_all_channels-Quit cfg now u user s h in
      rw (← some_eq (sym runs ∙ e)) q.linked
  Step-IsLinked (changed m status level g c) h = record {
    of_channel = h.of_channel;
    of_user = h.of_user;
    members_once = h.members_once;
    channels_once = h.channels_once;
    users_counted = h.users_counted;
    joined_counted = h.joined_counted;
    users_fit = h.users_fit;
    joined_fit = h.joined_fit;
    free_known = h.free_known;
    free_once = h.free_once;
    single = h.single;
  }

  -- Whatever joins, departures and kicks came before: the members of a channel are the memberships in use
  -- that name it, the channels of a user those that name the user, no list holds one twice, the counters
  -- are the lengths of the lists, and nobody is on a channel twice.
  pub Reach-IsLinked : {s : State} → Reach cfg s → IsLinked s.links
  Reach-IsLinked (start g c) = no_links-IsLinked
  Reach-IsLinked (next r step) = Step-IsLinked step (Reach-IsLinked r)
