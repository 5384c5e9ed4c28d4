-- ===== src/Tests/Members.antt =====
-- ircd/channel.c on two channels.
use irch.Base.{
  [], arith, codes, contains, false, if◌then◌else◌, length, none, refl, some, true, ◌<◌, ◌==◌, ◌≡◌,
  ◌≤◌, ◌∷◌,
}
use irch.Channel.{Channels, Config, Guests, Links, State, find_member_link, link}
use irch.Channel.Bans.{Ban, Target, find_ban, find_ban-first_ban, first_ban, is_excepted}
use irch.Channel.Expire.{
  exec_expired_destruct_events, exec_expired_destruct_events-pending, pending,
}
use irch.Channel.Find.{IsFound, IsMembership, find_member_link-eq}
use irch.Channel.History.{Reach, Reach-IsLinked, joined, next, no_links, start}
use irch.Channel.Invites.{IsMutual, add_invite-bounds}
use irch.Channel.Left.{ends, remove_user_from_channel-Removed}
use irch.Channel.Linked.{IsLinked, is_live, live_in}
use irch.Channel.Operations.{
  add_invite, add_user_to_channel, remove_user_from_all_channels, remove_user_from_channel,
}
use irch.Channel.Quit.{Quit, remove_user_from_all_channels-Quit}
use irch.Channel.Removed.{Removed}

abbrev config : Config
config = record {
  oplevels = false;
  max_channels_per_user = 1;
  crc32hash = λ v. 7;
  is_server = λ c. false;
  is_channel_service = λ c. false;
}

abbrev by_members : Config
by_members = record config { is_channel_service = λ c. true }

abbrev no_guests : Guests
no_guests = record { guests = λ c. []; invited = λ u. []; invites = λ u. 0 }

abbrev no_channels : Channels
no_channels = record {
  chname = λ c. codes "#irch";
  creationtime = λ c. 0;
  banlist = λ c. [];
  mode = λ c. 0;
  limit = λ c. 0;
  key = λ c. [];
  apass = λ c. [];
  destruct_event = λ c. false;
  global = 1 ∷ 2 ∷ [];
  table = λ v. [];
  stats = 2;
  minute_list = [];
  days_list = [];
}

abbrev empty : State
empty = record { links = no_links; guests = no_guests; chans = no_channels }

-- User 5 joins channel 1, and user 6 is a zombie of it.
abbrev one : State
one = add_user_to_channel empty 1 5 0 0

abbrev two : State
two = add_user_to_channel one 1 6 0x10 0

five_off : find_member_link config empty.links 1 5 ≡ none
unfolding find_member_link irch.Hash.first
five_off = refl

one-Reach : Reach config one
one-Reach =
    next (start no_guests no_channels) (joined 1 5 0 0 refl five_off (omega arith) (omega arith))

six_off : find_member_link config one.links 1 6 ≡ none
unfolding find_member_link irch.Hash.first add_user_to_channel link irch.Channel.new_membership
six_off = refl

two-Reach : Reach config two
unfolding add_user_to_channel link irch.Channel.inc
two-Reach = next one-Reach (joined 1 6 0x10 0 refl six_off (omega arith) (omega arith))

Reach-IsLinked_example : IsLinked two.links
Reach-IsLinked_example = Reach-IsLinked config two-Reach

two-IsLinked : IsLinked two.links
two-IsLinked = Reach-IsLinked config two-Reach

find_member_link-eq_example :
    IsFound two.links 1 5 (find_member_link config two.links 1 5)
    × (find_member_link config two.links 1 5 ≡ find_member_link by_members two.links 1 5)
find_member_link-eq_example = find_member_link-eq two-IsLinked 1 5 config by_members refl refl

-- User 5 leaves: the zombie goes too.
five_on : IsMembership two.links 1 5 0
unfolding is_live live_in add_user_to_channel link irch.Channel.new_membership contains
five_on = (refl, refl, refl)

remove_user_from_channel-Removed_example :
    (s' : State) × (remove_user_from_channel config 100 two 5 1 ≡ some s')
    × Removed two.links s'.links (ends two.links 1 5)
    × (length (s'.links.channels 5) < length (two.links.channels 5))
remove_user_from_channel-Removed_example =
    remove_user_from_channel-Removed config 100 two 1 5 0 two-IsLinked five_on refl

remove_user_from_all_channels-Quit_example :
    (s' : State) × (remove_user_from_all_channels config 100 two 5 ≡ some s')
    × Quit two.links s'.links 5
remove_user_from_all_channels-Quit_example =
    remove_user_from_all_channels-Quit config 100 5 refl two two-IsLinked

-- The user is invited to a channel, and may have one invitation at most.
abbrev invited_once : Guests
invited_once = record {
  guests = λ c. if c == 2 then 5 ∷ [] else [];
  invited = λ u. if u == 5 then 2 ∷ [] else [];
  invites = λ u. if u == 5 then 1 else 0;
}

invited_once-IsMutual : IsMutual invited_once
unfolding contains
invited_once-IsMutual = record {
  both = λ c u. ground arith;
  guests_once = λ c. ground arith;
  invited_once = λ u. ground arith;
  counted = λ u. ground arith;
  fit = λ u. ground arith;
}

add_invite-bounds_example :
    (g' : Guests) × (add_invite config invited_once 5 1 ≡ some g')
    × IsMutual g'
    × (contains 5 (g'.guests 1) ≡ true)
    × (contains 1 (g'.invited 5) ≡ true)
    × (g'.invites 5 ≤ 1)
add_invite-bounds_example =
    add_invite-bounds config invited_once 5 1 invited_once-IsMutual (omega arith) (omega arith)
      (omega arith)

abbrev target : Target
target = record {
  nu = codes "Run!carlo";
  host = codes "example.org";
  iphost = codes "192.0.2.1";
  ip = [];
  sr = none;
}

abbrev ban : Ban
ban = record { banstr = codes "*!*@*.org"; nu_len = 3; flags = 0; address = []; addrbits = 0 }

abbrev exception : Ban
exception = record { banstr = codes "run!*@*"; nu_len = 5; flags = 16; address = []; addrbits = 0 }

find_ban-first_ban_example : find_ban target (ban ∷ exception ∷ []) ≡ (
    if is_excepted target (ban ∷ exception ∷ [])
    then none
    else first_ban target (ban ∷ exception ∷ []))
find_ban-first_ban_example = find_ban-first_ban target (ban ∷ exception ∷ [])

-- The event of channel 1 expires at 60, the one of channel 2 at 172800.
abbrev timed : State
timed = record empty {
  chans = record no_channels {
    minute_list = record { expires = 60; chptr = 1 } ∷ [];
    days_list = record { expires = 172800; chptr = 2 } ∷ [];
  };
}

exec_expired_destruct_events-pending_example :
    ((exec_expired_destruct_events config 100 timed).chans.minute_list
      ≡ pending 100 timed.chans.minute_list)
    × ((exec_expired_destruct_events config 100 timed).chans.days_list
        ≡ pending 100 timed.chans.days_list)
exec_expired_destruct_events-pending_example =
    exec_expired_destruct_events-pending config 100 timed (tt, tt) (tt, tt)
      (unfold contains in refl, tt) (unfold contains in refl, tt)
