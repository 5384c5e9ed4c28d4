-- ===== src/Channel.antt =====
-- ircd/channel.c and ircd/destruct_event.c: who is on which channel, who is invited, and what becomes of a
-- channel when its last member leaves. A `struct Client *`, `struct Channel *` or `struct Membership *` is a
-- number, a field is a function of the pointer that leads to it, and a linked list is the list of its
-- pointers, from the head on.
pub mod Operations
pub mod Linked
pub mod Join
pub mod Removed
pub mod Part
pub mod Left
pub mod Quit
pub mod Bans
pub mod Find
pub mod Invites
pub mod Leave
pub mod History
pub mod Expire
use irch.Base.{
  Bool, List, Option, [], arith, bit_and, contains, drop, erase, false, if◌then◌else◌, is_null, leb,
  length, ltb, map, none, not, some, suc, true, update, zero, ℕ, ◌%◌, ◌&&◌, ◌++◌, ◌+◌, ◌-◌, ◌==◌,
  ◌^◌, ◌||◌, ◌∷◌,
}
use irch.Hash.{Table, first, rem}

-- The memberships: `membershipFreeList` and `membershipAllocCount`, the fields of `struct Membership`, those
-- of `struct Channel` (`members`, `users`) and those of `struct User` (`channel`, here `channels`, `joined`).
pub record Links : Type 0 where
  pub user : ℕ → ℕ
  pub channel : ℕ → ℕ
  pub status : ℕ → ℕ
  pub oplevel : ℕ → ℕ
  pub members : ℕ → List ℕ
  pub users : ℕ → ℕ
  pub channels : ℕ → List ℕ
  pub joined : ℕ → ℕ
  pub free : List ℕ
  pub alloc : ℕ

-- The invitations: `invites` of a channel, here `guests`, and `invited` and `invites` of a user.
pub record Guests : Type 0 where
  pub guests : ℕ → List ℕ
  pub invited : ℕ → List ℕ
  pub invites : ℕ → ℕ

-- `struct DestructEvent`
pub record DestructEvent : Type 0 where
  pub expires : ℕ
  pub chptr : ℕ

-- The rest of `struct Channel` without its topic, GlobalChannelList and the hash table of the channels;
-- `minute_list` and `days_list` from the bottom on, and UserStats.channels.
pub record Channels : Type 0 where
  pub chname : ℕ → List ℕ
  pub creationtime : ℕ → ℕ
  pub banlist : ℕ → List (List ℕ)
  pub mode : ℕ → ℕ
  pub limit : ℕ → ℕ
  pub key : ℕ → List ℕ
  pub apass : ℕ → List ℕ
  pub destruct_event : ℕ → Bool
  pub global : List ℕ
  pub table : Table
  pub stats : ℕ
  pub minute_list : List DestructEvent
  pub days_list : List DestructEvent

pub record State : Type 0 where
  pub links : Links
  pub guests : Guests
  pub chans : Channels

-- What the functions read besides: FEAT_OPLEVELS, FEAT_MAXCHANNELSPERUSER, `crc32hash`, and the flags
-- that tell a server and a channel service.
pub record Config : Type 0 where
  pub oplevels : Bool
  pub max_channels_per_user : ℕ
  pub crc32hash : ℕ → ℕ
  pub is_server : ℕ → Bool
  pub is_channel_service : ℕ → Bool

-- `++` and `--` of an unsigned int
unfoldable pub inc : ℕ → ℕ
inc n = (n + 1) % 2 ^ 32

unfoldable pub dec : ℕ → ℕ
dec n = (n + 2 ^ 32 - 1) % 2 ^ 32

-- CHFL_ZOMBIE and CHFL_DELAYED
unfoldable pub is_zombie_status : ℕ → Bool
is_zombie_status status = not (bit_and status 0x10 == 0)

unfoldable pub is_delayed_join : ℕ → Bool
is_delayed_join status = not (bit_and status 0x40000 == 0)

-- A channel service is looked for among the members, since it is on many channels.
unfoldable pub find_member_link : Config → Links → ℕ → ℕ → Option ℕ
find_member_link cfg l chptr cptr =
    if cfg.is_server cptr
    then none
    else if cfg.is_channel_service cptr
    then first (λ m. l.user m == cptr) (l.members chptr)
    else first (λ m. l.channel m == chptr) (l.channels cptr)

unfoldable pub find_channel_member : Config → Links → ℕ → ℕ → Option ℕ
find_channel_member cfg l cptr chptr = elim (find_member_link cfg l chptr cptr) [
  | none ↦ none
  | some m ↦ if is_zombie_status (l.status m) then none else some m
]

-- The membership that `add_user_to_channel` takes, with what is left of the free list and the count.
unfoldable pub new_membership : List ℕ → ℕ → ℕ × List ℕ × ℕ
new_membership [] alloc = (alloc, [], alloc + 1)
new_membership (m ∷ rest) alloc = (m, rest, alloc)

-- The part of `add_user_to_channel` that is about the memberships.
unfoldable pub link : Links → ℕ → ℕ → ℕ → ℕ → Links
unfolding inc
link l chptr who flags level =
    let taken = new_membership l.free l.alloc in
    let member = taken.0 in
    record {
      user = update l.user member who;
      channel = update l.channel member chptr;
      status = update l.status member flags;
      oplevel = update l.oplevel member level;
      members = update l.members chptr (member ∷ l.members chptr);
      users = update l.users chptr (inc (l.users chptr));
      channels = update l.channels who (member ∷ l.channels who);
      joined = update l.joined who (inc (l.joined who));
      free = taken.1;
      alloc = taken.2;
    }

-- The part of `remove_member_from_channel` that is about the memberships; `users` is left to
-- `sub1_from_channel`.
unfoldable pub unlink : Links → ℕ → Links
unfolding dec
unlink l member =
    let chptr = l.channel member in
    let who = l.user member in
    record l {
      members = update l.members chptr (erase member (l.members chptr));
      channels = update l.channels who (erase member (l.channels who));
      joined = update l.joined who (dec (l.joined who));
      free = member ∷ l.free;
    }

-- The count of `sub1_from_channel`, and whether the channel still has members.
unfoldable pub sub1 : Links → ℕ → Links × Bool
sub1 l chptr =
    let more = ltb 1 (l.users chptr) in
    (record l { users = update l.users chptr (if more then l.users chptr - 1 else 0) }, more)

-- `~mask` of a word
unfoldable pub clear_bits : ℕ → ℕ → ℕ
clear_bits word mask = word - bit_and word mask

unfoldable pub find_delayed_joins : Links → ℕ → Bool
find_delayed_joins l chptr =
    not (is_null (first (λ m. is_delayed_join (l.status m)) (l.members chptr)))

-- CheckDelayedJoins: clears MODE_WASDELJOINS.
unfoldable pub check_delayed_joins : Links → Channels → ℕ → Channels
check_delayed_joins l c chan =
    if not (bit_and (c.mode chan) 0x400000 == 0) && not (find_delayed_joins l chan)
    then record c { mode = update c.mode chan (clear_bits (c.mode chan) 0x400000) }
    else c
