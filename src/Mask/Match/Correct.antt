-- ===== src/Mask/Match/Correct.antt =====
-- ircd/match.c: `match` decides what a mask means.
use irch.Base.{
  ==_iff, Bool, Bool-cases, List, [], arith, false, inl, inr, length, none, some, suc, true, zero,
  ℕ, ◌*◌, ◌+◌, ◌<◌, ◌==◌, ◌↔◌, ◌∷◌, ◌≡◌, ◌≤◌,
}
use irch.Chattr.{to_lower}
use irch.Mask.Items.{
  starts_wild, Item, star, chr, items, Matches, done, skip, take_one, same, same_inv, star_inv,
  star_end, chr_end, is_clear,
}
use irch.Mask.Match.{
  Answer, matched, failed, Back, Round, Label, at_end, at_wild, normal, label, backtrack, Run,
  exhausted, run, wild_run, skip_to, normal_character, after_run, match_end, round, match_loop,
  match,
}
use irch.Mask.Match.Wild.{
  head_clear, head_wild, items-nil, items-plain, LabelMeans, label_means, RunMeans, wild_run_means,
}
use irch.Mask.Match.Steps.{
  past_chr, chr_clear, star_all, from_skip, star_to_skip, chr_to_skip, length-skip_to,
}

-- The answer is one of the two C results, and it is right about the question `G`.
abbrev pub Settles : Type 0 → Answer → Type 0
Settles G matched = G
Settles G failed = ¬ G
Settles G _ = ⊥

module _ (G : Type 0) (k : ℕ) where
  -- The saved position: `budget` bounds the name that is left there.
  abbrev Saved : ℕ → List Item → List ℕ → Back → Type 0
  Saved budget p n none = G → Matches p n
  Saved budget p n (some (m, s)) =
      (G ↔ Matches (star ∷ items m) s)
      × (Matches (items m) s → Matches p n)
      × (¬ Matches (items m) [])
      × (0 < length s)
      × (length s ≤ budget)
      × (length m < k)
      × (is_clear (items m) ≡ true)

  -- The state at the head of the loop, for the items `p` that are left.
  record Inv (budget : ℕ) (p : List Item) (n : List ℕ) (back : Back) : Type 0 where
    now : Matches p n → G
    later : G → Matches (star ∷ p) n
    saved : Saved budget p n back

  record State (fuel budget : ℕ) (m : List ℕ) (n : List ℕ) (back : Back) : Type 0 where
    inv : Inv budget (items m) n back
    clear : is_clear (items m) ≡ true
    short : length m < k
    text : length n ≤ budget
    steps : budget * k + length m < fuel

  abbrev Next : ℕ → Round → Type 0
  Next fuel next =
      (budget : ℕ) (m n : List ℕ) (back : Back)
      → State fuel budget m n back
      → Settles G (next m n back)

  -- After a mismatch the saved star takes one more character.
  backtrack-Settles :
      (fuel budget : ℕ) (p : List Item) (n : List ℕ) (back : Back) (next : Round)
      → Next fuel next
      → Inv budget p n back
      → ¬ Matches p n
      → budget * k ≤ fuel
      → Settles G (backtrack back next)
  unfolding backtrack
  backtrack-Settles fuel budget p n none next ih i no_match f = λ g. no_match (i.saved g)
  backtrack-Settles fuel budget p n (some (m, [])) next ih i no_match f =
      absurd (omega (arith, i.saved.3))
  backtrack-Settles fuel budget p n (some (m, c ∷ [])) next ih i no_match f =
      let (q, down, nonempty, _, _, _, _) = i.saved in
      λ g. elim (star_inv (q.0 g)) [ inl d ↦ no_match (down d) | inr t ↦ nonempty (star_end t) ]
  backtrack-Settles fuel zero p n (some (m, c ∷ d ∷ s)) next ih i no_match f =
      absurd (omega (arith, i.saved.4))
  backtrack-Settles fuel (suc budget) p n (some (m, c ∷ d ∷ s)) next ih i no_match f =
      let (q, down, nonempty, pos, room, short, clear) = i.saved in
      ih budget m (d ∷ s) (some (m, d ∷ s)) (record {
        inv = record {
          now = λ t. q.1 (take_one (skip t));
          later = λ g. moved g;
          saved = (
            (moved, λ t. q.1 (take_one t)),
            λ t. t,
            nonempty,
            omega arith,
            omega arith,
            short,
            clear,
          );
        };
        clear = clear;
        short = short;
        text = omega arith;
        steps = omega arith;
      })
    where
      moved : G → Matches (star ∷ items m) (d ∷ s)
      moved g = elim (star_inv (i.saved.0.0 g)) [
        | inl t ↦ absurd (no_match (i.saved.1 t))
        | inr t ↦ t
      ]

  Saved-chr :
      (budget : ℕ) (e : Bool) (x c : ℕ) (p : List Item) (n : List ℕ) (back : Back)
      → Saved budget (chr e x ∷ p) (c ∷ n) back
      → Saved budget p n back
  Saved-chr budget e x c p n none h = λ g. (same_inv (h g)).1
  Saved-chr budget e x c p n (some (m, s)) (q, down, rest0, rest1, rest2, rest3, rest4) =
      (q, λ t. (same_inv (down t)).1, rest0, rest1, rest2, rest3, rest4)

  -- One comparison, at items that begin with a character.
  chr-Settles :
      (fuel budget : ℕ) (e : Bool) (x : ℕ) (m n : List ℕ) (back : Back) (next : Round)
      → Next fuel next
      → Inv budget (chr e x ∷ items m) n back
      → is_clear (items m) ≡ true
      → length m < k
      → length n ≤ budget
      → budget * k + length m < fuel
      → Settles G (normal_character (x ∷ m) n back next)
  unfolding normal_character
  chr-Settles fuel budget e x m [] back next ih i clear short room f =
      λ g. chr_end (star_end (i.later g))
  chr-Settles fuel budget e x m (c ∷ n) back next ih i clear short room f =
      elim (Bool-cases (to_lower x == to_lower c)) [
        | inl h ↦
            let eq = (==_iff (to_lower x) (to_lower c)).0 h in
            rw h (
              ih budget m n back (record {
                inv = record {
                  now = λ t. i.now (same eq t);
                  later = λ g. past_chr c n (i.later g);
                  saved = Saved-chr budget e x c (items m) n back i.saved;
                };
                clear = clear;
                short = short;
                text = omega arith;
                steps = f;
              }))
        | inr h ↦ rw h (
            backtrack-Settles fuel budget (chr e x ∷ items m) (c ∷ n) back next ih i
              (λ t. differ h (same_inv t).0) (omega arith))
      ]
    where
      differ : (to_lower x == to_lower c) ≡ false → to_lower x ≡ to_lower c → ⊥
      differ h eq = ground arith

  -- The end of the mask.
  end-Settles :
      (fuel budget : ℕ) (n : List ℕ) (back : Back) (next : Round)
      → Next fuel next
      → Inv budget [] n back
      → budget * k ≤ fuel
      → Settles G (match_end n back next)
  unfolding match_end
  end-Settles fuel budget [] back next ih i f = i.now done
  end-Settles fuel budget (c ∷ n) back next ih i f =
      backtrack-Settles fuel budget [] (c ∷ n) back next ih i (λ t. elim t [ ]) f

  Saved-map :
      (budget : ℕ) (p p' : List Item) (n n' : List ℕ) (back : Back)
      → (Matches p n → Matches p' n')
      → Saved budget p n back
      → Saved budget p' n' back
  Saved-map budget p p' n n' none f h = λ g. f (h g)
  Saved-map budget p p' n n' (some (m, s)) f (q, down, rest0, rest1, rest2, rest3, rest4) =
      (q, λ t. f (down t), rest0, rest1, rest2, rest3, rest4)

  -- A star in front of a character: the position is saved, and the name is skipped ahead.
  star-Settles :
      (fuel budget x : ℕ) (m n : List ℕ) (next : Round)
      → Next fuel next
      → G ↔ Matches (star ∷ items (x ∷ m)) n
      → items (x ∷ m) ≡ chr false x ∷ items m
      → is_clear (items (x ∷ m)) ≡ true
      → length (x ∷ m) < k
      → length n ≤ budget
      → budget * k + length m < fuel
      → Settles G (normal_character (x ∷ m) (skip_to x n) (some (x ∷ m, n)) next)
  unfolding normal_character skip_to
  star-Settles fuel budget x m [] next ih q e clear short room f =
      λ g. chr_end (star_end (rw e at (q.0 g)))
  star-Settles fuel budget x m (c ∷ n) next ih q e clear short room f =
      let less = length-skip_to x (c ∷ n) in
      chr-Settles fuel budget false x m (skip_to x (c ∷ n)) (some (x ∷ m, c ∷ n)) next ih
        (record {
          now = λ t. q.1 (rw e (from_skip false x (chr false x ∷ items m) (c ∷ n) t));
          later = λ g. star_to_skip false x (items m) (c ∷ n) (rw e at (q.0 g));
          saved = (
            q,
            λ t. chr_to_skip false x (items m) (c ∷ n) (rw e at t),
            λ t. chr_end (rw e at t),
            omega arith,
            room,
            short,
            clear,
          );
        })
        (chr_clear false x (items m) (rw e at clear)) (omega arith) (omega arith) f

  run-Settles :
      (fuel budget : ℕ) (m n : List ℕ) (r : Run) (back : Back) (next : Round)
      → Next fuel next
      → RunMeans false m n r
      → head_clear (items m) ≡ true
      → State (suc fuel) budget m n back
      → Settles G (after_run r back next)
  unfolding after_run normal_character starts_wild items
  run-Settles fuel budget m n exhausted back next ih h hc s =
      backtrack-Settles fuel budget (items m) n back next ih s.inv (λ t. h (skip t)) (omega arith)
  run-Settles fuel budget m n (run false [] []) back next ih h hc s = s.inv.now (h.0.1 done)
  run-Settles fuel budget m n (run false [] (c ∷ n')) back next ih h hc s =
      backtrack-Settles fuel budget (items m) n back next ih s.inv
        (λ t. let no : Matches [] (c ∷ n') = h.0.0 t in elim no [ ]) (omega arith)
  run-Settles fuel budget m n (run false (x ∷ m') n') back next ih h hc s =
      let (both, star_in, plain, cl, lm, ln) = h in
      let (c1, c2) = cl s.clear hc in
      let e = items-plain x m' plain c2 in
      let i : Inv budget (items (x ∷ m')) n' back = record {
        now = λ t. s.inv.now (both.1 t);
        later = λ g. star_in (s.inv.later g);
        saved = Saved-map budget (items m) (items (x ∷ m')) n n' back both.0 s.inv.saved;
      } in
      chr-Settles fuel budget false x m' n' back next ih (rw e at i)
        (chr_clear false x (items m') (rw e at c1)) (omega arith) (omega arith) (omega arith)
  run-Settles fuel budget m n (run true [] n') back next ih h hc s = s.inv.now (h.0.1 (star_all n'))
  run-Settles fuel budget m n (run true (x ∷ m') n') back next ih h hc s =
      let (both, star_in, plain, cl, lm, ln) = h in
      let (c1, c2) = cl s.clear hc in
      star-Settles fuel budget x m' n' next ih
        (λ g. star_in (s.inv.later g), λ t. s.inv.now (both.1 t)) (items-plain x m' plain c2) c1
        (omega arith) (omega arith) (omega arith)

  round-Settles :
      (fuel budget : ℕ) (m n : List ℕ) (l : Label) (back : Back) (next : Round)
      → Next fuel next
      → LabelMeans m l
      → State (suc fuel) budget m n back
      → Settles G (round l m n back next)
  unfolding round
  round-Settles fuel budget m n at_end back next ih h s =
      let q : items m ≡ [] = rw h items-nil in
      end-Settles fuel budget n back next ih (rw q at s.inv) (omega arith)
  round-Settles fuel budget m n at_wild back next ih (c, m', e, w) s =
      run-Settles fuel budget m n (wild_run false m n) back next ih (wild_run_means false m n)
        (rw e (head_wild c m' w)) s
  round-Settles fuel budget m n (normal []) back next ih h s = absurd h
  round-Settles fuel budget m n (normal (x ∷ m')) back next ih (e, q, lt) s =
      chr-Settles fuel budget e x m' n back next ih (rw q at s.inv)
        (chr_clear e x (items m') (rw q at s.clear)) (omega arith) s.text (omega arith)

  match_loop-Settles :
      (fuel budget : ℕ) (m n : List ℕ) (back : Back)
      → State fuel budget m n back
      → Settles G (match_loop fuel m n back)
  unfolding match_loop
  match_loop-Settles zero budget m n back s = absurd (omega (arith, s.steps))
  match_loop-Settles (suc fuel) budget m n back s =
      round-Settles fuel budget m n (label m) back (match_loop fuel)
        (λ b m' n' back' s'. match_loop-Settles fuel b m' n' back' s') (label_means m) s

-- `match` ends within its fuel, steps nowhere behind the name, and answers rightly what the mask
-- means, for every mask in which no wildcard stands directly in front of an escaped one.
pub match-Settles :
    (mask name : List ℕ)
    → is_clear (items mask) ≡ true
    → Settles (Matches (items mask) name) (match mask name)
unfolding match
match-Settles mask name clear =
    match_loop-Settles (Matches (items mask) name) (length mask + 2) _ (length name) mask name none
      (record {
        inv = record { now = λ t. t; later = λ t. skip t; saved = λ t. t };
        clear = clear;
        short = omega arith;
        text = omega arith;
        steps = omega arith;
      })
