-- ===== src/Channel/Operations.antt =====
-- ircd/channel.c and ircd/destruct_event.c: the operations on the whole state.
use irch.Base.{
  Bool, List, Option, [], arith, erase, false, if◌then◌else◌, is_null, leb, length, ltb, none, not,
  some, suc, tail, true, update, zero, ℕ, ◌++◌, ◌+◌, ◌-◌, ◌==◌, ◌∷◌,
}
use irch.Channel.{
  Channels, Config, DestructEvent, Guests, Links, State, check_delayed_joins, clear_bits, dec,
  find_member_link, inc, is_delayed_join, is_zombie_status, link, sub1, unlink,
}
use irch.Hash.{first, rem}

-- The part of `add_invite` and `del_invite` that counts.
unfoldable pub del_invite : Guests → ℕ → ℕ → Guests
unfolding dec
del_invite g cptr chptr = record {
  guests = update g.guests chptr (erase cptr (g.guests chptr));
  invites =
      if irch.Base.contains cptr (g.guests chptr)
      then update g.invites cptr (dec (g.invites cptr))
      else g.invites;
  invited = update g.invited cptr (erase chptr (g.invited cptr));
}

-- The oldest invitation goes if the client has as many as it may: `none` is a read through null.
unfoldable pub make_room : Config → Guests → ℕ → Option Guests
make_room cfg g cptr =
    if leb cfg.max_channels_per_user (g.invites cptr)
    then (elim (g.invited cptr) [ [] ↦ none | oldest ∷ rest ↦ some (del_invite g cptr oldest) ])
    else some g

unfoldable pub append_invite : Guests → ℕ → ℕ → Guests
unfolding inc
append_invite g cptr chptr = record {
  guests = update g.guests chptr (cptr ∷ g.guests chptr);
  invited = update g.invited cptr (g.invited cptr ++ chptr ∷ []);
  invites = update g.invites cptr (inc (g.invites cptr));
}

unfoldable pub add_invite : Config → Guests → ℕ → ℕ → Option Guests
add_invite cfg g cptr chptr = elim (make_room cfg (del_invite g cptr chptr) cptr) [
  | none ↦ none
  | some g' ↦ some (append_invite g' cptr chptr)
]

-- `while (chptr->invites) del_invite(...)`, with a round for each guest.
unfoldable pub clear_invites_loop : ℕ → Guests → ℕ → Guests
clear_invites_loop zero g chptr = g
clear_invites_loop (suc fuel) g chptr = elim (g.guests chptr) [
  | [] ↦ g
  | cptr ∷ rest ↦ clear_invites_loop fuel (del_invite g cptr chptr) chptr
]

unfoldable pub clear_invites : Guests → ℕ → Guests
clear_invites g chptr = clear_invites_loop (length (g.guests chptr)) g chptr

unfoldable pub destruct_channel : Config → State → ℕ → State
destruct_channel cfg s chptr =
    let c = s.chans in
    record s {
      guests = clear_invites s.guests chptr;
      chans = record c {
        banlist = update c.banlist chptr [];
        global = erase chptr c.global;
        table = (rem cfg.crc32hash c.chname c.table chptr).0;
        stats = dec c.stats;
      };
    }

-- `minute` says which of the two lists, one minute or 48 hours from now.
unfoldable pub schedule_destruct_event : ℕ → Channels → ℕ → Bool → Channels
schedule_destruct_event now c chptr minute = if c.destruct_event chptr then c else record c {
  destruct_event = update c.destruct_event chptr true;
  minute_list =
      if minute
      then c.minute_list ++ record { expires = now + 60; chptr = chptr } ∷ []
      else c.minute_list;
  days_list =
      if minute
      then c.days_list
      else c.days_list ++ record { expires = now + 172800; chptr = chptr } ∷ [];
}

unfoldable pub without_event : ℕ → List DestructEvent → List DestructEvent
without_event chptr [] = []
without_event chptr (e ∷ es) =
    let onward = without_event chptr es in if e.chptr == chptr then es else e ∷ onward

unfoldable pub remove_destruct_event : Channels → ℕ → Channels
remove_destruct_event c chptr = record c {
  minute_list = without_event chptr c.minute_list;
  days_list = without_event chptr c.days_list;
  destruct_event = update c.destruct_event chptr false;
}

-- What `sub1_from_channel` does to an empty channel. `TStime() - creationtime` is signed.
unfoldable pub emptied : Config → ℕ → State → ℕ → State
emptied cfg now s chptr =
    let c = s.chans in
    let open_to_all = record c {
      mode = update c.mode chptr (clear_bits (c.mode chptr) 0x40);
      limit = update c.limit chptr 0;
    } in
    let unlocked = record open_to_all {
      mode = update c.mode chptr 0;
      key = update c.key chptr [];
      banlist = update c.banlist chptr [];
    } in
    let minute = ltb now (c.creationtime chptr + 172800) in
    elim (c.apass chptr) [
      | x ∷ apass ↦ record s { chans = schedule_destruct_event now open_to_all chptr minute }
      | [] ↦
          let cleared = record s { guests = clear_invites s.guests chptr; chans = unlocked } in
          if not cfg.oplevels
          then destruct_channel cfg cleared chptr
          else record cleared { chans = schedule_destruct_event now unlocked chptr minute }
    ]

unfoldable pub sub1_from_channel : Config → ℕ → State → ℕ → State × Bool
sub1_from_channel cfg now s chptr =
    let counted = sub1 s.links chptr in
    let s' = record s { links = counted.0 } in
    (if counted.1 then s' else emptied cfg now s' chptr, counted.1)

unfoldable pub remove_member_from_channel : Config → ℕ → State → ℕ → State × Bool
remove_member_from_channel cfg now s member =
    let chptr = s.links.channel member in
    let l = unlink s.links member in
    let c =
      if is_delayed_join (s.links.status member)
      then check_delayed_joins l s.chans chptr
      else s.chans in
    sub1_from_channel cfg now (record s { links = l; chans = c }) chptr

unfoldable pub channel_all_zombies : Links → ℕ → Bool
channel_all_zombies l chptr =
    is_null (first (λ m. not (is_zombie_status (l.status m))) (l.members chptr))

-- `while (remove_member_from_channel(chptr->members));` with a round for each member. `none` is a read
-- through null, or the end of the fuel.
unfoldable pub remove_zombies : Config → ℕ → ℕ → State → ℕ → Option State
remove_zombies cfg now zero s chptr = none
remove_zombies cfg now (suc fuel) s chptr = elim (s.links.members chptr) [
  | [] ↦ none
  | m ∷ rest ↦
      let removed = remove_member_from_channel cfg now s m in
      elim removed.1 [ true ↦ remove_zombies cfg now fuel removed.0 chptr | false ↦ some removed.0 ]
]

unfoldable pub remove_user_from_channel : Config → ℕ → State → ℕ → ℕ → Option State
remove_user_from_channel cfg now s cptr chptr = elim (find_member_link cfg s.links chptr cptr) [
  | none ↦ some s
  | some m ↦
      let removed = remove_member_from_channel cfg now s m in
      if removed.1
      then (if channel_all_zombies removed.0.links chptr
          then remove_zombies cfg now (length (removed.0.links.members chptr)) removed.0 chptr
          else some removed.0)
      else some removed.0
]

-- The loop of `remove_user_from_all_channels`, with a round for each channel of the client.
unfoldable pub remove_all_loop : Config → ℕ → ℕ → State → ℕ → Option State
remove_all_loop cfg now zero s cptr = elim (s.links.channels cptr) [ [] ↦ some s | m ∷ rest ↦ none ]
remove_all_loop cfg now (suc fuel) s cptr = elim (s.links.channels cptr) [
  | [] ↦ some s
  | m ∷ rest ↦ elim (remove_user_from_channel cfg now s cptr (s.links.channel m)) [
    | none ↦ none
    | some s' ↦ remove_all_loop cfg now fuel s' cptr
  ]
]

unfoldable pub remove_user_from_all_channels : Config → ℕ → State → ℕ → Option State
remove_user_from_all_channels cfg now s cptr =
    remove_all_loop cfg now (length (s.links.channels cptr)) s cptr

unfoldable pub add_user_to_channel : State → ℕ → ℕ → ℕ → ℕ → State
add_user_to_channel s chptr who flags oplevel = record s {
  links = link s.links chptr who flags oplevel;
  chans = if s.chans.destruct_event chptr then remove_destruct_event s.chans chptr else s.chans;
}
