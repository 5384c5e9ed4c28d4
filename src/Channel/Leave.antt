-- ===== src/Channel/Leave.antt =====
-- ircd/channel.c: a membership that is removed, and the count of its channel.
use irch.Base.{
  Bool, arith, contains, contains-erase, erase, erase-NoDup, false, if◌then◌else◌, length,
  length-erase, not, suc, true, ℕ, ◌&&◌, ◌<◌, ◌==◌, ◌∙◌, ◌≡◌,
}
use irch.Channel.{Links, dec, sub1, unlink}
use irch.Channel.Linked.{IsLinked, is_live, live_in}

-- `unlink` and the count behind it, as `remove_member_from_channel` does them.
abbrev pub dropped : Links → ℕ → Links × Bool
dropped l m = sub1 (unlink l m) (l.channel m)

module _ {l : Links} (m : ℕ) (h : IsLinked l) (live : is_live l m ≡ true) where
  pub dropped-is_live : (n : ℕ) → is_live (dropped l m).0 n ≡ (is_live l n && not (n == m))
  unfolding is_live live_in sub1 unlink contains
  dropped-is_live n = ground arith

  of_channel-here : contains m (l.members (l.channel m)) ≡ true
  of_channel-here = ground (arith, h.of_channel (l.channel m) m)

  of_user-here : contains m (l.channels (l.user m)) ≡ true
  of_user-here = ground (arith, h.of_user (l.user m) m)

  count-here : l.users (l.channel m) ≡ suc (length (erase m (l.members (l.channel m))))
  count-here =
      h.users_counted (l.channel m) ∙ length-erase m (l.members (l.channel m)) of_channel-here

  joined-here : l.joined (l.user m) ≡ suc (length (erase m (l.channels (l.user m))))
  joined-here = h.joined_counted (l.user m) ∙ length-erase m (l.channels (l.user m)) of_user-here

  dropped-of_channel :
      (d n : ℕ)
      → contains n ((dropped l m).0.members d)
        ≡ (is_live (dropped l m).0 n && (dropped l m).0.channel n == d)
  unfolding sub1 unlink
  dropped-of_channel d n = ground (
    arith,
    dropped-is_live n,
    h.of_channel d n,
    h.of_channel (l.channel m) n,
    contains-erase n m (l.members (l.channel m)) (h.members_once (l.channel m)),
  )

  dropped-of_user :
      (u n : ℕ)
      → contains n ((dropped l m).0.channels u)
        ≡ (is_live (dropped l m).0 n && (dropped l m).0.user n == u)
  unfolding sub1 unlink
  dropped-of_user u n = ground (
    arith,
    dropped-is_live n,
    h.of_user u n,
    h.of_user (l.user m) n,
    contains-erase n m (l.channels (l.user m)) (h.channels_once (l.user m)),
  )

  dropped-users :
      (d : ℕ)
      → (dropped l m).0.users d
        ≡ (if d == l.channel m then length (erase m (l.members (l.channel m))) else l.users d)
  unfolding sub1 unlink
  dropped-users d = ground (arith, count-here)

  dropped-joined :
      (u : ℕ)
      → (dropped l m).0.joined u
        ≡ (if u == l.user m then length (erase m (l.channels (l.user m))) else l.joined u)
  unfolding sub1 unlink dec
  dropped-joined u = ground (arith, joined-here, h.joined_fit (l.user m))

  live-free : contains m l.free ≡ false
  unfolding is_live live_in
  live-free = ground arith

  live-known : m < l.alloc
  unfolding is_live live_in
  live-known = ground arith

  pub dropped-IsLinked : IsLinked (dropped l m).0
  unfolding sub1 unlink
  dropped-IsLinked = record {
    of_channel = dropped-of_channel;
    of_user = dropped-of_user;
    members_once = λ d. ground (
      arith,
      h.members_once d,
      erase-NoDup m (l.members (l.channel m)) (h.members_once (l.channel m)),
    );
    channels_once = λ u. ground (
      arith,
      h.channels_once u,
      erase-NoDup m (l.channels (l.user m)) (h.channels_once (l.user m)),
    );
    users_counted = λ d. ground (arith, dropped-users d, h.users_counted d);
    joined_counted = λ u. ground (arith, dropped-joined u, h.joined_counted u);
    users_fit =
        λ d. ground (arith, dropped-users d, h.users_fit d, count-here, h.users_fit (l.channel m));
    joined_fit =
        λ u. ground (arith, dropped-joined u, h.joined_fit u, joined-here, h.joined_fit (l.user m));
    free_known = λ n k. unfold contains in ground (arith, h.free_known n, live-known);
    free_once = (live-free, h.free_once);
    single = λ a b la lb.
        h.single a b (ground (arith, dropped-is_live a)) (ground (arith, dropped-is_live b));
  }
