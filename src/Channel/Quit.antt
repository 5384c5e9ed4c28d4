-- ===== src/Channel/Quit.antt =====
-- ircd/channel.c: a user leaves every channel.
use irch.Base.{
  List, List-cases, [], ap, arith, contains, false, inl, inr, length, not, refl, some, suc, true,
  zero, ℕ, ◌&&◌, ◌==◌, ◌∙◌, ◌≡◌, ◌≤◌, ◌||◌, ◌∷◌,
}
use irch.Channel.{Config, Links, State, is_zombie_status}
use irch.Channel.Find.{IsMembership}
use irch.Channel.Linked.{IsLinked, is_live}
use irch.Channel.Left.{ends, is_alone, remove_user_from_channel-Removed}
use irch.Channel.Operations.{remove_all_loop, remove_user_from_all_channels}
use irch.Channel.Removed.{Removed}

-- `l'` is `l` without memberships of `u`: the only other ones that have ended are those of zombies.
pub record Quit (l l' : Links) (u : ℕ) : Type 0 where
  pub linked : IsLinked l'
  pub off : l'.channels u ≡ []
  pub stay :
      (n : ℕ)
      → is_live l n ≡ true
      → (l.user n == u || is_zombie_status (l.status n) || is_live l' n) ≡ true
  pub no_new : (n : ℕ) → is_live l' n ≡ true → (is_live l n && not (l.user n == u)) ≡ true
  pub same_user : l'.user ≡ l.user
  pub same_channel : l'.channel ≡ l.channel
  pub same_status : l'.status ≡ l.status

alone-zombie :
    (l : Links) (u n : ℕ) (ns : List ℕ)
    → is_alone l u ns ≡ true
    → contains n ns ≡ true
    → (l.user n == u || is_zombie_status (l.status n)) ≡ true
unfolding is_alone contains
alone-zombie l u n [] a at = cc
alone-zombie l u n (k ∷ ns) a at = ground (arith, alone-zombie l u n ns)

ends-stay :
    {l l' : Links} (h : IsLinked l) (c u n : ℕ)
    → Removed l l' (ends l c u)
    → is_live l n ≡ true
    → (l.user n == u || is_zombie_status (l.status n) || is_live l' n) ≡ true
unfolding ends
ends-stay {l} h c u n r alive =
    ground (arith, r.live n, h.of_channel c n, alone-zombie l u n (l.members c))

step_Quit :
    {l l' l'' : Links} (h : IsLinked l) (c u : ℕ)
    → Removed l l' (ends l c u)
    → Quit l' l'' u
    → Quit l l'' u
step_Quit h c u r q = record {
  linked = q.linked;
  off = q.off;
  stay = λ n alive. ground (
    arith,
    ends-stay h c u n r alive,
    q.stay n,
    ap (λ (f : ℕ → ℕ). f n) r.same_user,
    ap (λ (f : ℕ → ℕ). f n) r.same_status,
  );
  no_new =
      λ n alive. ground (arith, q.no_new n alive, r.live n, ap (λ (f : ℕ → ℕ). f n) r.same_user);
  same_user = q.same_user ∙ r.same_user;
  same_channel = q.same_channel ∙ r.same_channel;
  same_status = q.same_status ∙ r.same_status;
}

nothing_Quit : {l : Links} (u : ℕ) → IsLinked l → l.channels u ≡ [] → Quit l l u
unfolding contains
nothing_Quit {l} u h e =
    let none_on = λ (n : ℕ). let on : contains n (l.channels u) ≡ false = rw e refl in on in
    record {
      linked = h;
      off = e;
      stay = λ n alive. ground arith;
      no_new = λ n alive. ground (arith, none_on n, h.of_user u n);
      same_user = refl;
      same_channel = refl;
      same_status = refl;
    }

head-IsMembership :
    {l : Links} (h : IsLinked l) (u m : ℕ) (rest : List ℕ)
    → l.channels u ≡ m ∷ rest
    → IsMembership l (l.channel m) u m
unfolding contains
head-IsMembership {l} h u m rest e =
    let on : contains m (l.channels u) ≡ true = rw e (ground arith) in ground (arith, h.of_user u m)

module _ (cfg : Config) (now u : ℕ) (user : cfg.is_server u ≡ false) where
  remove_all-Quit :
      (fuel : ℕ) (s : State)
      → IsLinked s.links
      → length (s.links.channels u) ≤ fuel
      → (s' : State) × (remove_all_loop cfg now fuel s u ≡ some s') × Quit s.links s'.links u
  unfolding remove_all_loop
  remove_all-Quit zero s h room = elim (List-cases (s.links.channels u)) [
    | inl e ↦ (s, rw (remove_all_loop, e) refl, nothing_Quit u h e)
    | inr (m, rest, e) ↦
        absurd (let n : length (s.links.channels u) ≡ suc (length rest) = rw e refl in omega arith)
  ]
  remove_all-Quit (suc fuel) s h room = elim (List-cases (s.links.channels u)) [
    | inl e ↦ (s, rw (remove_all_loop, e) refl, nothing_Quit u h e)
    | inr (m, rest, e) ↦
        let c : ℕ = s.links.channel m in
        let on : IsMembership s.links c u m = head-IsMembership h u m rest e in
        let (s1, left, r, fewer) = remove_user_from_channel-Removed cfg now s c u m h on user in
        let (s2, runs, q) = remove_all-Quit fuel s1 r.linked (omega arith) in
        (s2, rw (remove_all_loop, e, left) runs, step_Quit h c u r q)
  ]

  -- With consistent memberships, a user leaves all channels: the loop ends, the user is on no channel,
  -- the only other memberships that end are those of zombies, none is new, and they are consistent again.
  pub remove_user_from_all_channels-Quit :
      (s : State)
      → IsLinked s.links
      → (s' : State) × (remove_user_from_all_channels cfg now s u ≡ some s')
        × Quit s.links s'.links u
  unfolding remove_user_from_all_channels
  remove_user_from_all_channels-Quit s h =
      remove_all-Quit (length (s.links.channels u)) s h (omega arith)
