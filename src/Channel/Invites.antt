-- ===== src/Channel/Invites.antt =====
-- ircd/channel.c: the invitations, which stand on a list of the channel and on one of the user.
use irch.Base.{
  Bool-cases, List-cases, NoDup, [], arith, contains, contains-append, contains-erase, erase-NoDup,
  erase-of_absent, false, inl, inr, leb, length, length-append, length-erase, refl, snoc-NoDup,
  some, suc, true, ℕ, ◌+◌, ◌==◌, ◌^◌, ◌≡◌, ◌≤◌, ◌<◌, ◌∷◌,
}
use irch.Channel.{Config, Guests, dec, inc}
use irch.Channel.Operations.{add_invite, append_invite, del_invite, make_room}

-- A user is on a channel's list exactly when the channel is on the user's, no list holds one twice,
-- and a user's counter is the number of channels on the list.
pub record IsMutual (g : Guests) : Type 0 where
  pub both : (c u : ℕ) → contains u (g.guests c) ≡ contains c (g.invited u)
  pub guests_once : (c : ℕ) → NoDup (g.guests c)
  pub invited_once : (u : ℕ) → NoDup (g.invited u)
  pub counted : (u : ℕ) → g.invites u ≡ length (g.invited u)
  pub fit : (u : ℕ) → g.invites u < 2 ^ 32

module _ {g : Guests} (u c : ℕ) (h : IsMutual g) where
  del_invite-both :
      (d v : ℕ)
      → contains v ((del_invite g u c).guests d) ≡ contains d ((del_invite g u c).invited v)
  unfolding del_invite
  del_invite-both d v = ground (
    arith,
    h.both d v,
    contains-erase v u (g.guests c) (h.guests_once c),
    contains-erase d c (g.invited u) (h.invited_once u),
  )

  del_invite-counted :
      (v : ℕ) → (del_invite g u c).invites v ≡ length ((del_invite g u c).invited v)
  unfolding del_invite dec
  del_invite-counted v = ground (
    arith,
    h.counted v,
    h.both c u,
    length-erase c (g.invited u),
    erase-of_absent c (g.invited u),
    h.fit u,
  )

  pub del_invite-IsMutual : IsMutual (del_invite g u c)
  unfolding del_invite dec
  del_invite-IsMutual = record {
    both = del_invite-both;
    guests_once =
        λ d. ground (arith, h.guests_once d, erase-NoDup u (g.guests c) (h.guests_once c));
    invited_once =
        λ v. ground (arith, h.invited_once v, erase-NoDup c (g.invited u) (h.invited_once u));
    counted = del_invite-counted;
    fit = λ v. ground (arith, h.fit v);
  }

  pub del_invite-gone : contains c ((del_invite g u c).invited u) ≡ false
  unfolding del_invite
  del_invite-gone = ground (arith, contains-erase c c (g.invited u) (h.invited_once u))

  append_invite-IsMutual :
      contains c (g.invited u) ≡ false → g.invites u + 1 < 2 ^ 32 → IsMutual (append_invite g u c)
  unfolding append_invite inc contains
  append_invite-IsMutual new room = record {
    both = λ d v. ground (arith, h.both d v, h.both c v, contains-append d (g.invited u) (c ∷ []));
    guests_once = λ d. elim (Bool-cases (d == c)) [
      | inl e ↦ rw e (ground (arith, h.both c u), h.guests_once c)
      | inr e ↦ rw e (h.guests_once d)
    ];
    invited_once = λ v. elim (Bool-cases (v == u)) [
      | inl e ↦ rw e (snoc-NoDup (g.invited u) c (h.invited_once u) new)
      | inr e ↦ rw e (h.invited_once v)
    ];
    counted = λ v. ground (arith, h.counted v, h.counted u, length-append (g.invited u) (c ∷ []));
    fit = λ v. ground (arith, h.fit v);
  }

  pub del_invite-fewer : (del_invite g u c).invites u ≤ g.invites u
  unfolding del_invite dec
  del_invite-fewer = ground (arith, h.counted u, h.both c u, length-erase c (g.invited u), h.fit u)

  del_invite-one_less :
      contains c (g.invited u) ≡ true → suc ((del_invite g u c).invites u) ≡ g.invites u
  unfolding del_invite dec
  del_invite-one_less at =
      ground (arith, h.counted u, h.both c u, length-erase c (g.invited u), h.fit u)

  del_invite-subset :
      (d : ℕ) → contains d (g.invited u) ≡ false → contains d ((del_invite g u c).invited u) ≡ false
  unfolding del_invite
  del_invite-subset d absent = ground (arith, contains-erase d c (g.invited u) (h.invited_once u))

-- There is room for one more, and `c` is not among the invitations.
abbrev HasRoom : Config → Guests → ℕ → ℕ → Type 0
HasRoom cfg g u c =
    IsMutual g × (g.invites u < cfg.max_channels_per_user) × (contains c (g.invited u) ≡ false)

make_room-HasRoom :
    (cfg : Config) (g : Guests) (u c : ℕ)
    → IsMutual g
    → 0 < cfg.max_channels_per_user
    → g.invites u ≤ cfg.max_channels_per_user
    → contains c (g.invited u) ≡ false
    → (g' : Guests) × (make_room cfg g u ≡ some g') × HasRoom cfg g' u c
unfolding make_room contains
make_room-HasRoom cfg g u c h some_room within absent =
    elim (Bool-cases (leb cfg.max_channels_per_user (g.invites u))) [
      | inr e ↦ (g, rw (make_room, e) refl, (h, ground arith, absent))
      | inl full ↦ elim (List-cases (g.invited u)) [
        | inl e ↦
            absurd (let n : length (g.invited u) ≡ 0 = rw e refl in ground (arith, h.counted u))
        | inr (oldest, rest, e) ↦
            let at : contains oldest (g.invited u) ≡ true = rw e (ground arith) in
            (
              del_invite g u oldest,
              rw (make_room, full, e) refl,
              (
                del_invite-IsMutual u oldest h,
                omega (arith, del_invite-one_less u oldest h at),
                del_invite-subset u oldest h c absent,
              ),
            )
      ]
    ]

-- If a user may have an invitation, has no more than that many, and the lists of channels and users
-- agree, then `add_invite` succeeds: the user is on the channel's list and the channel on the user's,
-- the user has no more invitations than allowed, and the lists agree again.
pub add_invite-bounds :
    (cfg : Config) (g : Guests) (u c : ℕ)
    → IsMutual g
    → 0 < cfg.max_channels_per_user
    → cfg.max_channels_per_user < 2 ^ 32
    → g.invites u ≤ cfg.max_channels_per_user
    → (g' : Guests) × (add_invite cfg g u c ≡ some g')
      × IsMutual g'
      × (contains u (g'.guests c) ≡ true)
      × (contains c (g'.invited u) ≡ true)
      × (g'.invites u ≤ cfg.max_channels_per_user)
unfolding add_invite append_invite inc contains
add_invite-bounds cfg g u c h some_room fits within =
    let g1 : Guests = del_invite g u c in
    let (g2, made, room) =
      make_room-HasRoom cfg g1 u c (del_invite-IsMutual u c h) some_room
        (omega (arith, del_invite-fewer u c h)) (del_invite-gone u c h) in
    (
      append_invite g2 u c,
      rw (add_invite, made) refl,
      append_invite-IsMutual u c room.0 room.2 (omega arith),
      ground arith,
      ground (arith, contains-append c (g2.invited u) (c ∷ [])),
      ground arith,
    )
