-- ===== src/Crule/Accepted.antt =====
-- ircd/crule.c: what the tree of an accepted rule is like.
use irch.Base.{
  Bool, Bool-cases, List, Option-cases, [], arith, false, if◌then◌else◌, inl, inr, length, none,
  not, refl, some, suc, true, zero, ℕ, ◌&&◌, ◌+◌, ◌==◌, ◌≡◌,
}
use irch.Crule.{
  Errcode, Token, Function, Node, null, unset, call, andor, negation, Pos, gettoken, getword,
  reqnumargs, find_function,
}
use irch.Crule.{unknown, end, and_op, or_op, close_paren, comma, word, open_paren, not_op}
use irch.Crule.Parse.{
  Parsed, Parser, Arglist, is_noerr, is_and, is_or, is_null, is_close, is_open, is_end,
  finish_function, parse_function, parse_paren, parse_primary, fill_right, finish_chain, and_loop,
  or_loop, parse_orexpr, parse_rule, crule_parse, parse_arglist, max_word,
}

-- Every function is set and has its number of arguments, and no `!` lacks its operand.
unfoldable pub well_formed : Node → Bool
well_formed null = true
well_formed unset = true
well_formed (call none args) = false
well_formed (call (some f) args) = reqnumargs f == length args
well_formed (andor is_or a b) = well_formed a && well_formed b
well_formed (negation a) = not (is_null a) && well_formed a

-- A parser without an error makes such a tree.
IsGood : Parsed → Type 0
IsGood p = is_noerr p.errcode ≡ true → well_formed p.node ≡ true

-- The tree is there, too.
IsFull : Parsed → Type 0
IsFull p = is_noerr p.errcode ≡ true → (well_formed p.node ≡ true) × (is_null p.node ≡ false)

finish_function-IsFull : (f : Function) (a : Arglist) → IsFull (finish_function f a)
unfolding finish_function IsFull well_formed is_noerr is_null
finish_function-IsFull f a h = ground arith

parse_function-IsFull : (fuel : ℕ) (pos : Pos) → IsFull (parse_function fuel pos)
unfolding parse_function IsFull is_noerr
parse_function-IsFull fuel pos h =
    let behind = (getword max_word pos.rest).1 in
    let next = gettoken behind in
    let inside = gettoken next.pos.rest in
    elim (Bool-cases (is_noerr next.errcode)) [
      | inr e ↦ absurd (ground arith)
      | inl e ↦ elim (Bool-cases (is_open next.pos.next_tok)) [
        | inr o ↦ absurd (ground arith)
        | inl o ↦ elim (Option-cases (find_function (getword max_word pos.rest).0)) [
          | inl n ↦ absurd (ground arith)
          | inr (f, n) ↦ elim (Bool-cases (is_noerr inside.errcode)) [
            | inr i ↦ absurd (ground arith)
            | inl i ↦
                rw (e, o, n, i)
                  (finish_function-IsFull f (parse_arglist fuel [] [] inside.pos)
                    (rw (e, o, n, i) at h))
          ]
        ]
      ]
    ]

parse_paren-IsFull :
    (or_expr : Parser) (pos : Pos)
    → ((at : Pos) → IsGood (or_expr at))
    → IsFull (parse_paren or_expr pos)
unfolding parse_paren IsFull IsGood is_noerr
parse_paren-IsFull or_expr pos k h =
    let first = gettoken pos.rest in
    let p = or_expr first.pos in
    elim (Bool-cases (is_noerr first.errcode)) [
      | inr e ↦ absurd (ground arith)
      | inl e ↦ elim (Bool-cases (is_noerr p.errcode)) [
        | inr o ↦ absurd (ground arith)
        | inl o ↦ elim (Bool-cases (is_null p.node)) [
          | inl z ↦ absurd (ground arith)
          | inr z ↦ elim (Bool-cases (is_close p.pos.next_tok)) [
            | inl c ↦ let good = k first.pos o in rw (parse_paren, e, o, z, c) (good, z)
            | inr c ↦ absurd (ground arith)
          ]
        ]
      ]
    ]

fill_right-well_formed :
    (root x : Node)
    → well_formed root ≡ true
    → well_formed x ≡ true
    → well_formed (fill_right root x) ≡ true
unfolding fill_right well_formed
fill_right-well_formed null x h k = k
fill_right-well_formed unset x h k = k
fill_right-well_formed (call f args) x h k = k
fill_right-well_formed (andor is_or a b) x h k = ground arith
fill_right-well_formed (negation a) x h k = k

-- The tree is there if it has to be.
IsPrimary : Bool → Parsed → Type 0
IsPrimary negated p =
    is_noerr p.errcode ≡ true
    → (well_formed p.node ≡ true) × (negated ≡ true → is_null p.node ≡ false)

full-IsPrimary : (negated : Bool) (p : Parsed) → IsFull p → IsPrimary negated p
unfolding IsFull IsPrimary
full-IsPrimary negated p k h = ((k h).0, λ n. (k h).1)

other-IsPrimary :
    (negated : Bool) (pos : Pos)
    → IsPrimary negated (record {
      errcode = if negated then Errcode.expctprim else Errcode.noerr;
      node = null;
      pos = pos;
    })
unfolding IsPrimary is_noerr well_formed
other-IsPrimary false pos h = (refl, λ n. cc)
other-IsPrimary true pos h = cc

parse_primary_good :
    (or_expr : Parser)
    → ((at : Pos) → IsGood (or_expr at))
    → (fuel : ℕ) (negated : Bool) (t : Token) (rest : List ℕ)
    → IsPrimary negated (parse_primary or_expr fuel negated (record { next_tok = t; rest = rest }))
unfolding parse_primary IsPrimary is_noerr well_formed is_null
parse_primary_good or_expr k zero negated t rest = λ h. cc
parse_primary_good or_expr k (suc fuel) negated unknown rest =
    other-IsPrimary negated (record { next_tok = unknown; rest = rest })
parse_primary_good or_expr k (suc fuel) negated end rest =
    other-IsPrimary negated (record { next_tok = end; rest = rest })
parse_primary_good or_expr k (suc fuel) negated and_op rest =
    other-IsPrimary negated (record { next_tok = and_op; rest = rest })
parse_primary_good or_expr k (suc fuel) negated or_op rest =
    other-IsPrimary negated (record { next_tok = or_op; rest = rest })
parse_primary_good or_expr k (suc fuel) negated close_paren rest =
    other-IsPrimary negated (record { next_tok = close_paren; rest = rest })
parse_primary_good or_expr k (suc fuel) negated comma rest =
    other-IsPrimary negated (record { next_tok = comma; rest = rest })
parse_primary_good or_expr k (suc fuel) negated open_paren rest =
    full-IsPrimary negated _ (parse_paren-IsFull or_expr _ k)
parse_primary_good or_expr k (suc fuel) negated word rest =
    full-IsPrimary negated _ (parse_function-IsFull fuel _)
parse_primary_good or_expr k (suc fuel) negated not_op rest = λ h.
    let next = gettoken rest in
    elim (Bool-cases (is_noerr next.errcode)) [
      | inr e ↦ absurd (ground arith)
      | inl e ↦
          let ok =
            parse_primary_good or_expr k fuel true next.pos.next_tok next.pos.rest
              (rw (parse_primary, e) at h) in
          rw (parse_primary, e) (rw (ok.1 refl) ok.0, λ n. refl)
    ]

IsPrimary-at :
    (or_expr : Parser)
    → ((at : Pos) → IsGood (or_expr at))
    → (fuel : ℕ) (pos : Pos) → IsPrimary false (parse_primary or_expr fuel false pos)
IsPrimary-at or_expr k fuel pos = parse_primary_good or_expr k fuel false pos.next_tok pos.rest

null_well_formed : (n : Node) → is_null n ≡ true → well_formed n ≡ true
unfolding is_null well_formed
null_well_formed null h = refl
null_well_formed unset h = refl
null_well_formed (call f args) h = cc
null_well_formed (andor o a b) h = cc
null_well_formed (negation a) h = cc

finish_chain-IsGood :
    (missing : Errcode) (root : Node) (p : Parsed)
    → well_formed root ≡ true
    → IsGood p
    → IsGood (finish_chain missing root p)
unfolding finish_chain IsGood
finish_chain-IsGood missing root p r k h = elim (Bool-cases (is_null root)) [
  | inl e ↦ rw e (k (rw e at h))
  | inr e ↦ elim (Bool-cases (is_null p.node)) [
    | inl z ↦ rw e (fill_right-well_formed root p.node r (null_well_formed p.node z))
    | inr z ↦ rw e (fill_right-well_formed root p.node r (k (rw (e, z) at h)))
  ]
]

and_loop-IsGood :
    (or_expr : Parser)
    → ((at : Pos) → IsGood (or_expr at))
    → (fuel : ℕ) (root : Node) (pos : Pos) → well_formed root ≡ true
    → IsGood (and_loop or_expr fuel root pos)
unfolding and_loop IsGood is_noerr well_formed IsPrimary
and_loop-IsGood or_expr k zero root pos r h = cc
and_loop-IsGood or_expr k (suc fuel) root pos r h =
    let p = parse_primary or_expr fuel false pos in
    let next = gettoken p.pos.rest in
    let good : IsGood p = λ e. (IsPrimary-at or_expr k fuel pos e).0 in
    elim (Bool-cases (is_noerr p.errcode && is_and p.pos.next_tok)) [
      | inr e ↦
          rw (and_loop, e)
            (finish_chain-IsGood Errcode.expctprim root p r good (rw (and_loop, e) at h))
      | inl e ↦ elim (Bool-cases (is_noerr next.errcode)) [
        | inr f ↦ absurd (ground arith)
        | inl f ↦
            let filled = fill_right-well_formed root p.node r (good (ground arith)) in
            rw (and_loop, e, f)
              (and_loop-IsGood or_expr k fuel (andor false (fill_right root p.node) unset) next.pos
                (rw filled refl) (rw (and_loop, e, f) at h))
      ]
    ]

is_null_null : is_null null ≡ true
unfolding is_null
is_null_null = refl

or_loop-IsGood :
    (or_expr : Parser)
    → ((at : Pos) → IsGood (or_expr at))
    → (fuel : ℕ) (root : Node) (pos : Pos) → well_formed root ≡ true
    → IsGood (or_loop or_expr fuel root pos)
unfolding or_loop IsGood is_noerr well_formed
or_loop-IsGood or_expr k zero root pos r h = cc
or_loop-IsGood or_expr k (suc fuel) root pos r h =
    let p = and_loop or_expr fuel null pos in
    let next = gettoken p.pos.rest in
    let good = and_loop-IsGood or_expr k fuel null pos (null_well_formed null (is_null_null)) in
    elim (Bool-cases (is_noerr p.errcode && is_or p.pos.next_tok)) [
      | inr e ↦
          rw (or_loop, e)
            (finish_chain-IsGood Errcode.expctand root p r good (rw (or_loop, e) at h))
      | inl e ↦ elim (Bool-cases (is_noerr next.errcode)) [
        | inr f ↦ absurd (ground arith)
        | inl f ↦
            let filled = fill_right-well_formed root p.node r (good (ground arith)) in
            rw (or_loop, e, f)
              (or_loop-IsGood or_expr k fuel (andor true (fill_right root p.node) unset) next.pos
                (rw filled refl) (rw (or_loop, e, f) at h))
      ]
    ]

unfinished-IsGood :
    (pos : Pos) → IsGood (record { errcode = Errcode.unfinished; node = null; pos = pos })
unfolding IsGood is_noerr
unfinished-IsGood pos h = cc

orexpr-IsGood : (fuel : ℕ) (pos : Pos) → IsGood (parse_orexpr fuel pos)
unfolding parse_orexpr
orexpr-IsGood zero pos = unfinished-IsGood pos
orexpr-IsGood (suc fuel) pos =
    or_loop-IsGood (parse_orexpr fuel) (orexpr-IsGood fuel) fuel null pos
      (null_well_formed null is_null_null)

parse_rule-well_formed :
    (fuel : ℕ) (rule : List ℕ)
    → is_noerr (parse_rule fuel rule).0 ≡ true
    → (well_formed (parse_rule fuel rule).1 ≡ true) × (is_null (parse_rule fuel rule).1 ≡ false)
unfolding parse_rule is_noerr IsGood
parse_rule-well_formed fuel rule h =
    let first = gettoken rule in
    let p = parse_orexpr fuel first.pos in
    elim (Bool-cases (is_noerr first.errcode)) [
      | inr e ↦ absurd (ground arith)
      | inl e ↦ elim (Bool-cases (is_noerr p.errcode)) [
        | inr o ↦ absurd (ground arith)
        | inl o ↦ elim (Bool-cases (is_null p.node)) [
          | inl z ↦ absurd (ground arith)
          | inr z ↦ elim (Bool-cases (is_end p.pos.next_tok)) [
            | inr c ↦ absurd (ground arith)
            | inl c ↦
                let good = orexpr-IsGood fuel first.pos o in rw (parse_rule, e, o, z, c) (good, z)
          ]
        ]
      ]
    ]

-- In the tree of a rule that is accepted, every function has its number of arguments and every `!`
-- has its operand.
pub crule_parse-well_formed :
    (rule : List ℕ)
    → is_noerr (crule_parse rule).0 ≡ true
    → (well_formed (crule_parse rule).1 ≡ true) × (is_null (crule_parse rule).1 ≡ false)
unfolding crule_parse
crule_parse-well_formed rule h =
    let r = parse_rule (length rule + 5) rule in
    elim (Bool-cases (is_noerr r.0)) [
      | inl e ↦ rw (crule_parse, e) (parse_rule-well_formed (length rule + 5) rule e)
      | inr e ↦ absurd (ground arith)
    ]
