-- ===== src/Crule/Finishes.antt =====
-- ircd/crule.c: the parser ends, with the fuel that the length of the rule gives.
use irch.Base.{
  Bool, Bool-cases, List, Option-cases, [], arith, false, if◌then◌else◌, inl, inr, length, not,
  refl, suc, true, zero, ℕ, ◌<◌, ◌==◌, ◌≡◌, ◌≤◌,
}
use irch.Crule.{
  Token, Pos, Function, gettoken, getword, find_function, reqnumargs, unknown, end, and_op, or_op,
  close_paren, comma, word, open_paren, not_op,
}
use irch.Crule.Parse.{
  Parsed, Parser, Arglist, is_noerr, is_null, is_close, is_open, is_word, is_comma, finish_function,
  parse_function, parse_paren, parse_arglist, max_word, join_word, store_arg,
}
use irch.Crule.Progress.{
  is_unfinished, cost, IsPos, more_room, IsScanned, getword-AllBytes, gettoken_lem,
}
use irch.Mask.Collapse.{collapse}

-- The parser has ended, and at most `n` characters are left.
pub record IsDone (n : ℕ) (p : Parsed) : Type 0 where
  pub finished : is_unfinished p.errcode ≡ false
  pub pos : IsPos n p.pos

pub IsDone-le : (m n : ℕ) (p : Parsed) → m ≤ n → IsDone m p → IsDone n p
IsDone-le m n p le h = record { finished = h.finished; pos = more_room m n p.pos le h.pos }

-- A parser that ends wherever fewer than `n` characters are left.
unfoldable pub Handles : ℕ → Parser → Type 0
Handles n or_expr = (m : ℕ) (at : Pos) → m < n → IsPos m at → IsDone m (or_expr at)

pub choose :
    (n : ℕ) (t : Bool) (x y : Parsed)
    → (t ≡ true → IsDone n x)
    → (t ≡ false → IsDone n y)
    → IsDone n (if t then x else y)
choose n true x y h k = h refl
choose n false x y h k = k refl

-- The scan behind a token that has been passed.
pub next_lem :
    (n : ℕ) (pos : Pos)
    → IsPos n pos
    → cost pos.next_tok ≡ 1
    → (length pos.rest < n) × IsScanned (length pos.rest) (gettoken pos.rest)
next_lem n pos p c = let s = p.small in (omega arith, gettoken_lem pos.rest p.bytes)

-- The scan behind a word.
word_lem :
    (n : ℕ) (pos : Pos)
    → IsPos n pos
    → is_word pos.next_tok ≡ true
    → (length (getword max_word pos.rest).1 < n)
      × IsScanned (length (getword max_word pos.rest).1) (gettoken (getword max_word pos.rest).1)
word_lem n pos p w =
    let s = p.small in
    let r = p.ready w in (omega arith, gettoken_lem _ (getword-AllBytes max_word pos.rest p.bytes))

comma_cost : (t : Token) → is_comma t ≡ true → cost t ≡ 1
unfolding is_comma cost
comma_cost comma h = refl
comma_cost unknown h = cc
comma_cost end h = cc
comma_cost and_op h = cc
comma_cost or_op h = cc
comma_cost not_op h = cc
comma_cost open_paren h = cc
comma_cost close_paren h = cc
comma_cost word h = cc

record IsListed (n : ℕ) (a : Arglist) : Type 0 where
  finished : is_unfinished a.errcode ≡ false
  pos : IsPos n a.pos

IsListed-le : (m n : ℕ) (a : Arglist) → m ≤ n → IsListed m a → IsListed n a
IsListed-le m n a le h = record { finished = h.finished; pos = more_room m n a.pos le h.pos }

arglist_done :
    (fuel n : ℕ) (args : List (List ℕ)) (currarg : List ℕ) (pos : Pos)
    → n < fuel
    → IsPos n pos
    → IsListed n (parse_arglist fuel args currarg pos)
unfolding parse_arglist is_unfinished
arglist_done zero n args currarg pos lt p = absurd (omega arith)
arglist_done (suc fuel) n args currarg pos lt p = elim (Bool-cases (is_word pos.next_tok)) [
  | inl w ↦
      let (less, r) = word_lem n pos p w in
      let m = length (getword max_word pos.rest).1 in
      let after = gettoken (getword max_word pos.rest).1 in
      elim (Bool-cases (is_noerr after.errcode)) [
        | inl e ↦
            rw (parse_arglist, w, e)
              (IsListed-le m n _ (omega arith) (
                arglist_done fuel m args (join_word currarg (getword max_word pos.rest).0) after.pos
                  (omega arith) r.pos))
        | inr e ↦
            rw (parse_arglist, w, e)
              (IsListed-le m n _ (omega arith) (record { finished = r.finished; pos = r.pos }))
      ]
  | inr w ↦ elim (Bool-cases (is_comma pos.next_tok)) [
    | inr c ↦ rw (parse_arglist, w, c) (record { finished = refl; pos = p })
    | inl c ↦
        let (less, r) = next_lem n pos p (comma_cost pos.next_tok c) in
        let m = length pos.rest in
        let after = gettoken pos.rest in
        elim (Bool-cases (is_noerr after.errcode)) [
          | inl e ↦
              rw (parse_arglist, w, c, e)
                (IsListed-le m n _ (omega arith) (
                  arglist_done fuel m (store_arg args (collapse currarg)) [] after.pos (omega arith)
                    r.pos))
          | inr e ↦
              rw (parse_arglist, w, c, e)
                (IsListed-le m n _ (omega arith) (record { finished = r.finished; pos = r.pos }))
        ]
  ]
]

word_cost : (t : Token) → is_open t ≡ true → cost t ≡ 1
unfolding is_open cost
word_cost open_paren h = refl
word_cost unknown h = cc
word_cost end h = cc
word_cost and_op h = cc
word_cost or_op h = cc
word_cost not_op h = cc
word_cost comma h = cc
word_cost close_paren h = cc
word_cost word h = cc

close_cost : (t : Token) → is_close t ≡ true → cost t ≡ 1
unfolding is_close cost
close_cost close_paren h = refl
close_cost unknown h = cc
close_cost end h = cc
close_cost and_op h = cc
close_cost or_op h = cc
close_cost not_op h = cc
close_cost comma h = cc
close_cost open_paren h = cc
close_cost word h = cc

finish_function-IsDone :
    (n : ℕ) (f : Function) (a : Arglist) → IsListed n a → IsDone n (finish_function f a)
unfolding finish_function is_unfinished
finish_function-IsDone n f a h =
    choose n (not (is_noerr a.errcode)) _ _ (λ _. record { finished = h.finished; pos = h.pos })
      λ _.
        choose n (not (is_close a.pos.next_tok)) _ _ (λ _. record { finished = refl; pos = h.pos })
          λ c.
            let (less, r) = next_lem n a.pos h.pos (close_cost a.pos.next_tok (ground arith)) in
            let behind = more_room _ n _ (omega arith) r.pos in
            choose n (not (reqnumargs f == length a.args)) _ _
              (λ _. record { finished = refl; pos = h.pos })
              λ _.
                choose n (not (is_noerr (gettoken a.pos.rest).errcode)) _ _
                  (λ _. record { finished = r.finished; pos = behind })
                  λ _. record { finished = refl; pos = behind }

pub parse_function-IsDone :
    (fuel n : ℕ) (pos : Pos)
    → n ≤ fuel
    → IsPos n pos
    → is_word pos.next_tok ≡ true
    → IsDone n (parse_function fuel pos)
unfolding parse_function is_unfinished
parse_function-IsDone fuel n pos le p w =
    let (less, r) = word_lem n pos p w in
    let next = gettoken (getword max_word pos.rest).1 in
    let here = more_room _ n next.pos (omega arith) r.pos in
    choose n (not (is_noerr next.errcode)) _ _ (λ _. record { finished = r.finished; pos = here })
      λ _.
        choose n (not (is_open next.pos.next_tok)) _ _ (λ _. record { finished = refl; pos = here })
          λ o.
            let (less2, r2) =
              next_lem _ next.pos r.pos (word_cost next.pos.next_tok (ground arith)) in
            let inside = gettoken next.pos.rest in
            elim (Option-cases (find_function (getword max_word pos.rest).0)) [
              | inl e ↦ rw e (record { finished = refl; pos = here })
              | inr (f, e) ↦ rw e (
                  choose n (not (is_noerr inside.errcode)) _ _
                    (λ _. record {
                      finished = r2.finished;
                      pos = more_room _ n _ (omega arith) r2.pos;
                    })
                    λ _. IsDone-le _ n _ (omega arith) (
                      finish_function-IsDone _ f _
                        (arglist_done fuel _ [] [] inside.pos (omega arith) r2.pos)))
            ]

pub parse_paren-IsDone :
    (n : ℕ) (or_expr : Parser) (rest : List ℕ)
    → Handles n or_expr
    → IsPos n (record { next_tok = open_paren; rest = rest })
    → IsDone n (parse_paren or_expr (record { next_tok = open_paren; rest = rest }))
unfolding parse_paren is_unfinished cost Handles
parse_paren-IsDone n or_expr rest k p =
    let (less, r) = next_lem n _ p refl in
    let first = gettoken rest in
    elim (Bool-cases (is_noerr first.errcode)) [
      | inr e ↦
          rw (parse_paren, e)
            (record { finished = r.finished; pos = more_room _ n _ (omega arith) r.pos })
      | inl e ↦
          let d = k (length rest) first.pos less r.pos in
          let q = or_expr first.pos in
          let here = more_room _ n _ (omega arith) d.pos in
          rw (parse_paren, e)
            (choose n (not (is_noerr q.errcode)) _ _
              (λ _. record { finished = d.finished; pos = here })
              λ _.
                choose n (is_null q.node) _ _ (λ _. record { finished = refl; pos = here })
                  λ _.
                    choose n (not (is_close q.pos.next_tok)) _ _
                      (λ _. record { finished = refl; pos = here })
                      λ c.
                        let (less2, r2) =
                          next_lem _ q.pos d.pos (close_cost q.pos.next_tok (ground arith)) in
                        record {
                          finished = r2.finished;
                          pos = more_room _ n _ (omega arith) r2.pos;
                        })
    ]
