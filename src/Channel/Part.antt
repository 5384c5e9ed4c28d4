-- ===== src/Channel/Part.antt =====
-- ircd/channel.c: what is left when a user leaves a channel, or all of them.
use irch.Base.{
  List, [], arith, contains, erase, length, ltb, lt→ltb, refl, some, suc, true, zero, ℕ, ◌==◌, ◌∙◌,
  ◌≡◌, ◌<◌, ◌||◌, ◌∷◌,
}
use irch.Channel.{Config, Links, State}
use irch.Channel.Linked.{IsLinked, is_live}
use irch.Channel.Operations.{remove_member_from_channel, remove_zombies}
use irch.Channel.Removed.{
  Removed, Removed-ext, Removed-trans, remove_member-Removed, remove_member-members,
  remove_member-more,
}

head-members :
    {l : Links} (h : IsLinked l) (c m : ℕ) (rest : List ℕ)
    → l.members c ≡ m ∷ rest
    → (is_live l m ≡ true) × (l.channel m ≡ c)
unfolding contains
head-members {l} h c m rest e =
    let on : contains m (l.members c) ≡ true = rw e (ground arith) in
    ground (arith, h.of_channel c m)

module _ (cfg : Config) (now : ℕ) (s : State) (c m : ℕ) (rest : List ℕ) (h : IsLinked s.links)
    (e : s.links.members c ≡ m ∷ rest) where
  head_left : (remove_member_from_channel cfg now s m).0.links.members c ≡ rest
  unfolding erase
  head_left =
      let at : s.links.channel m ≡ c = (head-members h c m rest e).1 in
      let left : (remove_member_from_channel cfg now s m).0.links.members c
          ≡ erase m (s.links.members c) =
        rw (← at) (remove_member-members cfg now s m) in
      left ∙ rw e (ground arith)

  head_more : (remove_member_from_channel cfg now s m).1 ≡ ltb 1 (suc (length rest))
  head_more =
      let at : s.links.channel m ≡ c = (head-members h c m rest e).1 in
      remove_member-more cfg now s m h ∙ rw at (rw e refl)

head_gone :
    {l : Links} (h : IsLinked l) (c m : ℕ) (rest : List ℕ)
    → l.members c ≡ m ∷ rest
    → (n : ℕ) → is_live l n ≡ true
    → (n == m || contains n rest) ≡ (l.channel n == c)
unfolding contains
head_gone {l} h c m rest e n live =
    let on : contains n (l.members c) ≡ (n == m || contains n rest) = rw e refl in
    ground (arith, h.of_channel c n)

-- The zombies that are left alone on a channel are all removed.
pub remove_zombies-Removed :
    (cfg : Config) (now fuel : ℕ) (s : State) (c : ℕ)
    → IsLinked s.links
    → (m : ℕ) (rest : List ℕ) → s.links.members c ≡ m ∷ rest
    → length rest < fuel
    → (s' : State) × (remove_zombies cfg now fuel s c ≡ some s')
      × Removed s.links s'.links (λ n. s.links.channel n == c)
unfolding remove_zombies
remove_zombies-Removed cfg now zero s c h m rest e room = absurd (omega arith)
remove_zombies-Removed cfg now (suc fuel) s c h m [] e room =
    let live = head-members h c m [] e in
    let r = remove_member-Removed cfg now s m h live.0 in
    (
      (remove_member_from_channel cfg now s m).0,
      rw (remove_zombies, e, head_more cfg now s c m [] h e) refl,
      Removed-ext r (λ n alive. unfold contains in ground (arith, head_gone h c m [] e n alive)),
    )
remove_zombies-Removed cfg now (suc fuel) s c h m (x ∷ xs) e room =
    let live = head-members h c m (x ∷ xs) e in
    let s1 : State = (remove_member_from_channel cfg now s m).0 in
    let r : Removed s.links s1.links (λ n. n == m) = remove_member-Removed cfg now s m h live.0 in
    let (s', runs, r') =
      remove_zombies-Removed cfg now fuel s1 c r.linked x xs (head_left cfg now s c m (x ∷ xs) h e)
        (omega arith) in
    let more : (remove_member_from_channel cfg now s m).1 ≡ true =
      head_more cfg now s c m (x ∷ xs) h e ∙ lt→ltb 1 (suc (length (x ∷ xs))) (omega arith) in
    (
      s',
      rw (remove_zombies, e, more) runs,
      Removed-ext (Removed-trans r r') (λ n alive. ground (
        arith,
        head_gone h c m (x ∷ xs) e n alive,
        r.live n,
        head_gone r.linked c x xs (head_left cfg now s c m (x ∷ xs) h e) n,
      )),
    )
