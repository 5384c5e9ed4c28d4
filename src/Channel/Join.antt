-- ===== src/Channel/Join.antt =====
-- ircd/channel.c: `add_user_to_channel` and the memberships.
use irch.Base.{
  Bool-cases, arith, contains, false, inl, inr, true, ℕ, ◌&&◌, ◌+◌, ◌<◌, ◌==◌, ◌^◌, ◌≡◌, ◌≢◌, ◌||◌,
}
use irch.Channel.{Links, inc, link, new_membership}
use irch.Channel.Linked.{
  IsLinked, IsOutside, is_live, taken-known, taken-live, taken-not_live, taken-once,
}

module _ {l : Links} (c who flags level : ℕ) (h : IsLinked l) (outside : IsOutside l c who)
    (users_room : l.users c + 1 < 2 ^ 32) (joined_room : l.joined who + 1 < 2 ^ 32) where
  link-is_live :
      (m : ℕ)
      → is_live (link l c who flags level) m
        ≡ (is_live l m || m == (new_membership l.free l.alloc).0)
  unfolding is_live link
  link-is_live m =
      taken-live l.free l.alloc m h.free_once (h.free_known (new_membership l.free l.alloc).0)

  new-not_live : is_live l (new_membership l.free l.alloc).0 ≡ false
  unfolding is_live
  new-not_live = taken-not_live l.free l.alloc

  link-of_channel :
      (d m : ℕ)
      → contains m ((link l c who flags level).members d)
        ≡ (is_live (link l c who flags level) m && (link l c who flags level).channel m == d)
  unfolding link contains
  link-of_channel d m =
      ground (arith, link-is_live m, h.of_channel d m, h.of_channel c m, new-not_live)

  link-of_user :
      (u m : ℕ)
      → contains m ((link l c who flags level).channels u)
        ≡ (is_live (link l c who flags level) m && (link l c who flags level).user m == u)
  unfolding link contains
  link-of_user u m = ground (arith, link-is_live m, h.of_user u m, h.of_user who m, new-not_live)

  live-outside : (m : ℕ) → is_live l m ≡ true → l.user m ≡ who → l.channel m ≢ c
  live-outside m live same e = outside m (ground (arith, h.of_channel c m)) same

  link-single :
      (m n : ℕ)
      → is_live (link l c who flags level) m ≡ true
      → is_live (link l c who flags level) n ≡ true
      → (link l c who flags level).user m ≡ (link l c who flags level).user n
      → (link l c who flags level).channel m ≡ (link l c who flags level).channel n
      → m ≡ n
  unfolding link
  link-single m n a b u e =
      ground (arith, link-is_live m, link-is_live n, h.single m n, live-outside m, live-outside n)

  pub link-IsLinked : IsLinked (link l c who flags level)
  unfolding link contains inc
  link-IsLinked = record {
    of_channel = link-of_channel;
    of_user = link-of_user;
    members_once = λ d. elim (Bool-cases (d == c)) [
      | inl e ↦ rw e (
        ground (arith, h.of_channel c (new_membership l.free l.alloc).0, new-not_live),
        h.members_once c,
      )
      | inr e ↦ rw e (h.members_once d)
    ];
    channels_once = λ u. elim (Bool-cases (u == who)) [
      | inl e ↦ rw e (
        ground (arith, h.of_user who (new_membership l.free l.alloc).0, new-not_live),
        h.channels_once who,
      )
      | inr e ↦ rw e (h.channels_once u)
    ];
    users_counted = λ d. ground (arith, h.users_counted d, h.users_counted c, users_room);
    joined_counted = λ u. ground (arith, h.joined_counted u, h.joined_counted who, joined_room);
    users_fit = λ d. ground (arith, h.users_fit d);
    joined_fit = λ u. ground (arith, h.joined_fit u);
    free_known = λ m. taken-known l.free l.alloc m (h.free_known m);
    free_once = taken-once l.free l.alloc h.free_once;
    single = link-single;
  }
