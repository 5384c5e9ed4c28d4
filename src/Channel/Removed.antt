-- ===== src/Channel/Removed.antt =====
-- ircd/channel.c: which memberships a removal ends.
use irch.Base.{
  Bool, Bool-cases, List, arith, contains, erase, false, if◌then◌else◌, inl, inr, length,
  length-erase, not, refl, true, ℕ, ◌&&◌, ◌==◌, ◌∙◌, ◌≡◌, ◌≤◌, ◌<◌, ◌||◌, ltb, erase-of_absent,
}
use irch.Channel.{Config, Links, State, sub1, unlink}
use irch.Channel.Linked.{IsLinked, is_live}
use irch.Channel.Leave.{dropped, dropped-IsLinked, dropped-is_live}
use irch.Channel.Operations.{
  emptied, remove_member_from_channel, schedule_destruct_event, destruct_channel, sub1_from_channel,
}

-- `l'` is `l` with the memberships ended that `gone` tells; the others are as they were.
pub record Removed (l l' : Links) (gone : ℕ → Bool) : Type 0 where
  pub linked : IsLinked l'
  pub live : (n : ℕ) → is_live l' n ≡ (is_live l n && not (gone n))
  pub same_user : l'.user ≡ l.user
  pub same_channel : l'.channel ≡ l.channel
  pub same_status : l'.status ≡ l.status
  pub same_oplevel : l'.oplevel ≡ l.oplevel
  pub fewer : (w : ℕ) → length (l'.channels w) ≤ length (l.channels w)

erase-le : (i : ℕ) (js : List ℕ) → length (erase i js) ≤ length js
erase-le i js = elim (Bool-cases (contains i js)) [
  | inl e ↦ omega (arith, length-erase i js e)
  | inr e ↦ rw (erase-of_absent i js e) (omega arith)
]

pub dropped-Removed :
    {l : Links} (m : ℕ) → IsLinked l → is_live l m ≡ true → Removed l (dropped l m).0 (λ n. n == m)
unfolding sub1 unlink
dropped-Removed {l} m h live = record {
  linked = dropped-IsLinked m h live;
  live = dropped-is_live m h live;
  same_user = refl;
  same_channel = refl;
  same_status = refl;
  same_oplevel = refl;
  fewer = λ w. ground (arith, erase-le m (l.channels w));
}

pub Removed-trans :
    {l l' l'' : Links} {a b : ℕ → Bool}
    → Removed l l' a
    → Removed l' l'' b
    → Removed l l'' (λ n. a n || b n)
Removed-trans r q = record {
  linked = q.linked;
  live = λ n. ground (arith, r.live n, q.live n);
  same_user = q.same_user ∙ r.same_user;
  same_channel = q.same_channel ∙ r.same_channel;
  same_status = q.same_status ∙ r.same_status;
  same_oplevel = q.same_oplevel ∙ r.same_oplevel;
  fewer = λ w. omega (arith, r.fewer w, q.fewer w);
}

pub Removed-ext :
    {l l' : Links} {a b : ℕ → Bool}
    → Removed l l' a
    → ((n : ℕ) → is_live l n ≡ true → a n ≡ b n)
    → Removed l l' b
Removed-ext r same = record {
  linked = r.linked;
  live = λ n. ground (arith, r.live n, same n);
  same_user = r.same_user;
  same_channel = r.same_channel;
  same_status = r.same_status;
  same_oplevel = r.same_oplevel;
  fewer = r.fewer;
}

-- An empty channel's modes, invitations and destruction leave the memberships alone.
emptied-links : (cfg : Config) (now : ℕ) (s : State) (c : ℕ) → (emptied cfg now s c).links ≡ s.links
unfolding emptied schedule_destruct_event destruct_channel
emptied-links cfg now s c = ground arith

if-links :
    (b : Bool) (cfg : Config) (now : ℕ) (s : State) (c : ℕ)
    → (if b then s else emptied cfg now s c).links ≡ s.links
if-links true cfg now s c = refl
if-links false cfg now s c = emptied-links cfg now s c

module _ (cfg : Config) (now : ℕ) (s : State) (m : ℕ) where
  remove_member-links : (remove_member_from_channel cfg now s m).0.links ≡ (dropped s.links m).0
  unfolding remove_member_from_channel sub1_from_channel
  remove_member-links = if-links (dropped s.links m).1 cfg now _ (s.links.channel m)

  pub remove_member-Removed :
      IsLinked s.links
      → is_live s.links m ≡ true
      → Removed s.links (remove_member_from_channel cfg now s m).0.links (λ n. n == m)
  remove_member-Removed h live = rw remove_member-links (dropped-Removed m h live)

  pub remove_member-members :
      (remove_member_from_channel cfg now s m).0.links.members (s.links.channel m)
      ≡ erase m (s.links.members (s.links.channel m))
  unfolding sub1 unlink
  remove_member-members = rw remove_member-links (ground arith)

  pub remove_member-more :
      IsLinked s.links
      → (remove_member_from_channel cfg now s m).1
        ≡ ltb 1 (length (s.links.members (s.links.channel m)))
  unfolding remove_member_from_channel sub1_from_channel sub1 unlink
  remove_member-more h = rw (h.users_counted (s.links.channel m)) refl

  pub remove_member-fewer :
      IsLinked s.links
      → is_live s.links m ≡ true
      → length ((remove_member_from_channel cfg now s m).0.links.channels (s.links.user m))
        < length (s.links.channels (s.links.user m))
  unfolding sub1 unlink
  remove_member-fewer h live =
      let at : contains m (s.links.channels (s.links.user m)) ≡ true =
        ground (arith, h.of_user (s.links.user m) m) in
      rw remove_member-links (ground (arith, length-erase m (s.links.channels (s.links.user m)) at))
