-- ===== src/Channel/Linked.antt =====
-- ircd/channel.c: the memberships, and what adding and removing one keeps.
use irch.Base.{
  Bool, List, NoDup, [], arith, contains, false, length, ltb, not, true, ℕ, ◌&&◌, ◌<◌, ◌==◌, ◌^◌,
  ◌∷◌, ◌≡◌, ◌≢◌, ◌||◌,
}
use irch.Channel.{Links, new_membership}

-- A membership that has been allocated and is not on the free list.
unfoldable pub live_in : List ℕ → ℕ → ℕ → Bool
live_in free alloc m = ltb m alloc && not (contains m free)

unfoldable pub is_live : Links → ℕ → Bool
is_live l m = live_in l.free l.alloc m

-- The members of a channel are the memberships in use that name it, the channels of a user those that
-- name the user, no list holds one twice, the counters are the lengths, and nobody is on a channel twice.
pub record IsLinked (l : Links) : Type 0 where
  pub of_channel : (c m : ℕ) → contains m (l.members c) ≡ (is_live l m && l.channel m == c)
  pub of_user : (u m : ℕ) → contains m (l.channels u) ≡ (is_live l m && l.user m == u)
  pub members_once : (c : ℕ) → NoDup (l.members c)
  pub channels_once : (u : ℕ) → NoDup (l.channels u)
  pub users_counted : (c : ℕ) → l.users c ≡ length (l.members c)
  pub joined_counted : (u : ℕ) → l.joined u ≡ length (l.channels u)
  pub users_fit : (c : ℕ) → l.users c < 2 ^ 32
  pub joined_fit : (u : ℕ) → l.joined u < 2 ^ 32
  pub free_known : (m : ℕ) → contains m l.free ≡ true → m < l.alloc
  pub free_once : NoDup l.free
  pub single :
      (m n : ℕ)
      → is_live l m ≡ true
      → is_live l n ≡ true
      → l.user m ≡ l.user n
      → l.channel m ≡ l.channel n
      → m ≡ n

-- `who` is not on the channel.
abbrev pub IsOutside : Links → ℕ → ℕ → Type 0
IsOutside l c who = (m : ℕ) → contains m (l.members c) ≡ true → l.user m ≢ who

-- What `add_user_to_channel` takes from the free list or from the allocator.
pub taken-not_live :
    (free : List ℕ) (alloc : ℕ) → live_in free alloc (new_membership free alloc).0 ≡ false
unfolding live_in new_membership contains
taken-not_live [] alloc = ground arith
taken-not_live (m ∷ rest) alloc = ground arith

pub taken-live :
    (free : List ℕ) (alloc m : ℕ)
    → NoDup free
    → (contains (new_membership free alloc).0 free ≡ true → (new_membership free alloc).0 < alloc)
    → live_in (new_membership free alloc).1 (new_membership free alloc).2 m
      ≡ (live_in free alloc m || m == (new_membership free alloc).0)
unfolding live_in new_membership contains
taken-live [] alloc m once known = ground arith
taken-live (f ∷ rest) alloc m once known = ground (arith, known)

pub taken-known :
    (free : List ℕ) (alloc m : ℕ)
    → (contains m free ≡ true → m < alloc)
    → contains m (new_membership free alloc).1 ≡ true
    → m < (new_membership free alloc).2
unfolding new_membership contains
taken-known [] alloc m known h = cc
taken-known (f ∷ rest) alloc m known h = ground (arith, known)

pub taken-once : (free : List ℕ) (alloc : ℕ) → NoDup free → NoDup (new_membership free alloc).1
unfolding new_membership
taken-once [] alloc h = tt
taken-once (f ∷ rest) alloc h = h.1
