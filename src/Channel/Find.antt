-- ===== src/Channel/Find.antt =====
-- ircd/channel.c: the search for a membership.
use irch.Base.{
  Bool-cases, Option, arith, contains, false, inl, inr, none, refl, some, sym, true, ℕ, ◌&&◌, ◌==◌,
  ◌∙◌, ◌≡◌, ap,
}
use irch.Channel.{Config, Links, find_member_link}
use irch.Channel.Linked.{IsLinked, IsOutside, is_live}
use irch.Hash.{first}
use irch.Hash.Seek.{first-none, first-some}

-- `m` is the membership of the client on the channel.
abbrev pub IsMembership : Links → ℕ → ℕ → ℕ → Type 0
IsMembership l c u m = (is_live l m ≡ true) × (l.user m ≡ u) × (l.channel m ≡ c)

abbrev pub IsFound : Links → ℕ → ℕ → Option ℕ → Type 0
IsFound l c u none = IsOutside l c u
IsFound l c u (some m) = IsMembership l c u m

module _ {l : Links} (h : IsLinked l) (c u : ℕ) where
  among_members : (o : Option ℕ) → first (λ m. l.user m == u) (l.members c) ≡ o → IsFound l c u o
  among_members none e = λ m on same.
      let no : (l.user m == u) ≡ false =
        first-none (λ (n : ℕ). l.user n == u) (l.members c) m e on in
      ground arith
  among_members (some m) e =
      let both : (contains m (l.members c) && (l.user m == u)) ≡ true =
        first-some (λ (n : ℕ). l.user n == u) (l.members c) m e in
      ground (arith, h.of_channel c m)

  among_channels :
      (o : Option ℕ) → first (λ m. l.channel m == c) (l.channels u) ≡ o → IsFound l c u o
  among_channels none e = λ m on same.
      let at : contains m (l.channels u) ≡ true = ground (arith, h.of_channel c m, h.of_user u m) in
      let no : (l.channel m == c) ≡ false =
        first-none (λ (n : ℕ). l.channel n == c) (l.channels u) m e at in
      ground (arith, h.of_channel c m)
  among_channels (some m) e =
      let both : (contains m (l.channels u) && (l.channel m == c)) ≡ true =
        first-some (λ (n : ℕ). l.channel n == c) (l.channels u) m e in
      ground (arith, h.of_user u m)

  pub find_member_link-IsFound :
      (cfg : Config) (o : Option ℕ)
      → cfg.is_server u ≡ false
      → find_member_link cfg l c u ≡ o
      → IsFound l c u o
  unfolding find_member_link
  find_member_link-IsFound cfg o user e = elim (Bool-cases (cfg.is_channel_service u)) [
    | inl service ↦ among_members o (ground arith)
    | inr other ↦ among_channels o (ground arith)
  ]

  pub found_unique : (o p : Option ℕ) → IsFound l c u o → IsFound l c u p → o ≡ p
  found_unique none none a b = refl
  found_unique none (some m) a b = absurd (a m (ground (arith, h.of_channel c m)) b.1)
  found_unique (some m) none a b = absurd (b m (ground (arith, h.of_channel c m)) a.1)
  found_unique (some m) (some n) a b =
      ap some (h.single m n a.0 b.0 (a.1 ∙ sym b.1) (a.2 ∙ sym b.2))

  -- With consistent memberships, the search finds the client's membership on the channel, and null only
  -- if there is none; among the channel's members or among the client's channels, it finds the same one.
  pub find_member_link-eq :
      (cfg cfg' : Config)
      → cfg.is_server u ≡ false
      → cfg'.is_server u ≡ false
      → IsFound l c u (find_member_link cfg l c u)
        × (find_member_link cfg l c u ≡ find_member_link cfg' l c u)
  find_member_link-eq cfg cfg' a b =
      let found = find_member_link-IsFound cfg (find_member_link cfg l c u) a refl in
      let other = find_member_link-IsFound cfg' (find_member_link cfg' l c u) b refl in
      (found, found_unique (find_member_link cfg l c u) (find_member_link cfg' l c u) found other)
