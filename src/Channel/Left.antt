-- ===== src/Channel/Left.antt =====
-- ircd/channel.c: what is left when a user leaves a channel, or all of them.
use irch.Base.{
  Bool, Bool-cases, List, List-cases, NoDup, [], ap, arith, contains, erase, erase-of_absent, false,
  is_null, inl, inr, length, length-erase, ltb, not, refl, some, suc, true, ℕ, ◌&&◌, ◌==◌, ◌≡◌, ◌<◌,
  ◌||◌, ◌∷◌,
}
use irch.Channel.{Config, Links, State, find_member_link, is_zombie_status}
use irch.Channel.Find.{found_unique, IsMembership, find_member_link-IsFound}
use irch.Channel.Linked.{IsLinked, is_live}
use irch.Channel.Operations.{
  channel_all_zombies, remove_member_from_channel, remove_user_from_channel,
}
use irch.Channel.Part.{remove_zombies-Removed}
use irch.Channel.Removed.{
  Removed, Removed-ext, Removed-trans, remove_member-Removed, remove_member-fewer,
  remove_member-members, remove_member-more,
}
use irch.Hash.{first}

contains-none : (n : ℕ) (ns : List ℕ) → length ns ≡ 0 → contains n ns ≡ false
unfolding contains
contains-none n [] e = refl
contains-none n (k ∷ ns) e = absurd (omega arith)

-- Whether all of the members but the user are zombies.
unfoldable pub is_alone : Links → ℕ → List ℕ → Bool
is_alone l u [] = true
is_alone l u (n ∷ ns) = (l.user n == u || is_zombie_status (l.status n)) && is_alone l u ns

-- The memberships that end when `u` leaves the channel: the user's, and all of them if only zombies
-- would be left.
unfoldable pub ends : Links → ℕ → ℕ → ℕ → Bool
ends l c u n = l.channel n == c && (l.user n == u || is_alone l u (l.members c))

zombies-erase :
    (l : Links) (u m : ℕ) (ns : List ℕ)
    → NoDup ns
    → ((n : ℕ) → contains n ns ≡ true → (l.user n == u) ≡ (n == m))
    → is_null (first (λ n. not (is_zombie_status (l.status n))) (erase m ns)) ≡ is_alone l u ns
unfolding first is_alone erase contains
zombies-erase l u m [] once same = refl
zombies-erase l u m (n ∷ ns) once same =
    let onward = zombies-erase l u m ns once.1 (λ k at. same k (ground arith)) in
    let here : (l.user n == u) ≡ (n == m) = same n (ground arith) in
    elim (Bool-cases (m == n)) [
      | inl e ↦
          let absent : erase m ns ≡ ns = erase-of_absent m ns (ground arith) in
          ground (arith, onward, here, absent)
      | inr e ↦ ground (arith, onward, here)
    ]

the_same :
    (l : Links) (c u m : ℕ)
    → IsLinked l
    → IsMembership l c u m
    → (n : ℕ) → contains n (l.members c) ≡ true
    → (l.user n == u) ≡ (n == m)
the_same l c u m h on n at = ground (arith, h.of_channel c n, h.single n m)

module _ (cfg : Config) (now : ℕ) (s : State) (c u m : ℕ) (h : IsLinked s.links)
    (on : IsMembership s.links c u m) where
  members_left :
      (remove_member_from_channel cfg now s m).0.links.members c ≡ erase m (s.links.members c)
  members_left = rw (← on.2) (remove_member-members cfg now s m)

  all_zombies-alone :
      channel_all_zombies (remove_member_from_channel cfg now s m).0.links c
      ≡ is_alone s.links u (s.links.members c)
  unfolding channel_all_zombies
  all_zombies-alone =
      let r = remove_member-Removed cfg now s m h on.0 in
      let same =
        λ (n : ℕ) (at : contains n (s.links.members c) ≡ true). the_same s.links c u m h on n at in
      rw (channel_all_zombies, members_left, r.same_status)
        (zombies-erase s.links u m (s.links.members c) (h.members_once c) same)

  found : cfg.is_server u ≡ false → find_member_link cfg s.links c u ≡ some m
  found user =
      found_unique h c u (find_member_link cfg s.links c u) (some m)
        (find_member_link-IsFound h c u cfg (find_member_link cfg s.links c u) user refl) on

  how_many :
      length (s.links.members c)
      ≡ suc (length ((remove_member_from_channel cfg now s m).0.links.members c))
  how_many =
      let at : contains m (s.links.members c) ≡ true = ground (arith, h.of_channel c m) in
      rw members_left (length-erase m (s.links.members c) at)

  more_lem : (remove_member_from_channel cfg now s m).1 ≡ ltb 1 (length (s.links.members c))
  more_lem = rw (← on.2) (remove_member-more cfg now s m h)

  ends-last :
      (remove_member_from_channel cfg now s m).1 ≡ false
      → (n : ℕ) → is_live s.links n ≡ true
      → (n == m) ≡ ends s.links c u n
  unfolding ends contains
  ends-last last n alive =
      let r = remove_member-Removed cfg now s m h on.0 in
      let few : length ((remove_member_from_channel cfg now s m).0.links.members c) ≡ 0 =
        ground (arith, more_lem, how_many) in
      let empty : contains n ((remove_member_from_channel cfg now s m).0.links.members c) ≡ false =
        contains-none n ((remove_member_from_channel cfg now s m).0.links.members c) few in
      ground (
        arith,
        r.linked.of_channel c n,
        r.live n,
        h.single n m,
        ap (λ (f : ℕ → ℕ). f n) r.same_channel,
      )

  -- A user who leaves a channel is off it, and so are the others if all of them are zombies; every other
  -- membership stays as it was, and the memberships are consistent again.
  pub remove_user_from_channel-Removed :
      cfg.is_server u ≡ false
      → (s' : State) × (remove_user_from_channel cfg now s u c ≡ some s')
        × Removed s.links s'.links (ends s.links c u)
        × (length (s'.links.channels u) < length (s.links.channels u))
  unfolding remove_user_from_channel
  remove_user_from_channel-Removed user =
      let s1 : State = (remove_member_from_channel cfg now s m).0 in
      let fewer : length (s1.links.channels u) < length (s.links.channels u) =
        rw (← on.1) (remove_member-fewer cfg now s m h on.0) in
      let r : Removed s.links s1.links (λ n. n == m) = remove_member-Removed cfg now s m h on.0 in
      elim (Bool-cases (remove_member_from_channel cfg now s m).1) [
        | inr last ↦ (
          s1,
          rw (remove_user_from_channel, found user, last) refl,
          Removed-ext r (ends-last last),
          fewer,
        )
        | inl more ↦ elim (Bool-cases (channel_all_zombies s1.links c)) [
          | inr living ↦ (
            s1,
            rw (remove_user_from_channel, found user, more, living) refl,
            Removed-ext r
                (λ n alive. unfold ends in ground (arith, all_zombies-alone, h.single n m)),
            fewer,
          )
          | inl zombies ↦ elim (List-cases (s1.links.members c)) [
            | inl e ↦ absurd (
                let few : length (s1.links.members c) ≡ 0 = rw e refl in
                ground (arith, more_lem, how_many))
            | inr (x, xs, e) ↦
                let (s2, runs, q) =
                  remove_zombies-Removed cfg now (length (s1.links.members c)) s1 c r.linked x xs e
                    (rw e (omega arith)) in
                (
                  s2,
                  rw (remove_user_from_channel, found user, more, zombies) runs,
                  Removed-ext (Removed-trans r q) (λ n alive.
                      unfold ends in
                      ground (arith, all_zombies-alone, ap (λ (f : ℕ → ℕ). f n) r.same_channel)),
                  omega (arith, q.fewer u),
                )
          ]
        ]
      ]
