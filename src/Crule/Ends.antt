-- ===== src/Crule/Ends.antt =====
-- ircd/crule.c: the parser of whole rules ends, with the fuel that the length of the rule gives.
use irch.Base.{
  leb, ◌⊎◌, Bool, Bool-cases, List, arith, false, if◌then◌else◌, inl, inr, length, refl, suc, true,
  zero, ℕ, ◌&&◌, ◌+◌, ◌<◌, ◌≡◌, ◌≤◌,
}
use irch.Crule.{
  Token, Errcode, Pos, Node, null, unset, call, negation, andor, gettoken, unknown, end, and_op,
  or_op, close_paren, comma, word, open_paren, not_op,
}
use irch.Crule.Parse.{
  Parsed, Parser, is_noerr, is_and, is_or, is_null, is_end, is_word, parse_primary, fill_right,
  finish_chain, and_loop, or_loop, parse_orexpr, parse_rule, crule_parse, crule_free, cr_maxargs,
}
use irch.Crule.Runs.{has_operands}
use irch.Crule.Progress.{AllBytes, is_unfinished, cost, IsPos, more_room, gettoken_lem}
use irch.Crule.Finishes.{
  IsDone, IsDone-le, Handles, choose, next_lem, parse_function-IsDone, parse_paren-IsDone,
}

other-IsDone :
    (n : ℕ) (negated : Bool) (pos : Pos)
    → IsPos n pos
    → IsDone n (record {
      errcode = if negated then Errcode.expctprim else Errcode.noerr;
      node = null;
      pos = pos;
    })
unfolding is_unfinished
other-IsDone n false pos p = record { finished = refl; pos = p }
other-IsDone n true pos p = record { finished = refl; pos = p }

Handles-fewer : (m n : ℕ) (or_expr : Parser) → m ≤ n → Handles n or_expr → Handles m or_expr
unfolding Handles
Handles-fewer m n or_expr le k l at lt p = k l at (omega arith) p

primary-IsDone :
    (fuel n : ℕ) (or_expr : Parser) (negated : Bool) (t : Token) (rest : List ℕ)
    → n < fuel
    → Handles n or_expr
    → IsPos n (record { next_tok = t; rest = rest })
    → IsDone n (parse_primary or_expr fuel negated (record { next_tok = t; rest = rest }))
unfolding parse_primary cost is_word
primary-IsDone zero n or_expr negated t rest lt k p = absurd (omega arith)
primary-IsDone (suc fuel) n or_expr negated unknown rest lt k p = other-IsDone n negated _ p
primary-IsDone (suc fuel) n or_expr negated end rest lt k p = other-IsDone n negated _ p
primary-IsDone (suc fuel) n or_expr negated and_op rest lt k p = other-IsDone n negated _ p
primary-IsDone (suc fuel) n or_expr negated or_op rest lt k p = other-IsDone n negated _ p
primary-IsDone (suc fuel) n or_expr negated close_paren rest lt k p = other-IsDone n negated _ p
primary-IsDone (suc fuel) n or_expr negated comma rest lt k p = other-IsDone n negated _ p
primary-IsDone (suc fuel) n or_expr negated word rest lt k p =
    parse_function-IsDone fuel n _ (omega arith) p refl
primary-IsDone (suc fuel) n or_expr negated open_paren rest lt k p =
    parse_paren-IsDone n or_expr rest k p
primary-IsDone (suc fuel) n or_expr negated not_op rest lt k p =
    let (less, r) = next_lem n _ p refl in
    let next = gettoken rest in
    elim (Bool-cases (is_noerr next.errcode)) [
      | inr e ↦
          rw (parse_primary, e)
            (record { finished = r.finished; pos = more_room _ n _ (omega arith) r.pos })
      | inl e ↦
          let d =
            primary-IsDone fuel (length rest) or_expr true next.pos.next_tok next.pos.rest
              (omega arith) (Handles-fewer (length rest) n or_expr (omega arith) k) r.pos in
          rw (parse_primary, e)
            (record { finished = d.finished; pos = more_room _ n _ (omega arith) d.pos })
    ]

finish_chain-IsDone :
    (n : ℕ) (missing : Errcode) (root : Node) (p : Parsed)
    → is_unfinished missing ≡ false
    → IsDone n p
    → IsDone n (finish_chain missing root p)
unfolding finish_chain
finish_chain-IsDone n missing root p m h =
    choose n (is_null root) _ _ (λ _. h)
      λ _. elim (Bool-cases (is_null p.node)) [
        | inl e ↦ rw e (record { finished = m; pos = h.pos })
        | inr e ↦ rw e (record { finished = h.finished; pos = h.pos })
      ]

and_cost : (t : Token) → is_and t ≡ true → cost t ≡ 1
unfolding is_and cost
and_cost and_op h = refl
and_cost unknown h = cc
and_cost end h = cc
and_cost open_paren h = cc
and_cost or_op h = cc
and_cost not_op h = cc
and_cost comma h = cc
and_cost close_paren h = cc
and_cost word h = cc

or_cost : (t : Token) → is_or t ≡ true → cost t ≡ 1
unfolding is_or cost
or_cost or_op h = refl
or_cost unknown h = cc
or_cost end h = cc
or_cost open_paren h = cc
or_cost and_op h = cc
or_cost not_op h = cc
or_cost comma h = cc
or_cost close_paren h = cc
or_cost word h = cc

and_loop-IsDone :
    (fuel n : ℕ) (or_expr : Parser) (root : Node) (pos : Pos)
    → n + 1 < fuel
    → Handles n or_expr
    → IsPos n pos
    → IsDone n (and_loop or_expr fuel root pos)
unfolding and_loop is_unfinished
and_loop-IsDone zero n or_expr root pos lt k p = absurd (omega arith)
and_loop-IsDone (suc fuel) n or_expr root pos lt k p =
    let q = parse_primary or_expr fuel false pos in
    let d = primary-IsDone fuel n or_expr false pos.next_tok pos.rest (omega arith) k p in
    let next = gettoken q.pos.rest in
    elim (Bool-cases (is_noerr q.errcode && is_and q.pos.next_tok)) [
      | inr e ↦ rw (and_loop, e) (finish_chain-IsDone n Errcode.expctprim root q refl d)
      | inl e ↦
          let (less, r) = next_lem n q.pos d.pos (and_cost q.pos.next_tok (ground arith)) in
          elim (Bool-cases (is_noerr next.errcode)) [
            | inr f ↦
                rw (and_loop, e, f)
                  (record { finished = r.finished; pos = more_room _ n _ (omega arith) r.pos })
            | inl f ↦
                rw (and_loop, e, f)
                  (IsDone-le _ n _ (omega arith) (
                    and_loop-IsDone fuel (length q.pos.rest) or_expr
                      (andor false (fill_right root q.node) unset) next.pos (omega arith)
                      (Handles-fewer _ n or_expr (omega arith) k) r.pos))
          ]
    ]

or_loop-IsDone :
    (fuel n : ℕ) (or_expr : Parser) (root : Node) (pos : Pos)
    → n + 2 < fuel
    → Handles n or_expr
    → IsPos n pos
    → IsDone n (or_loop or_expr fuel root pos)
unfolding or_loop is_unfinished
or_loop-IsDone zero n or_expr root pos lt k p = absurd (omega arith)
or_loop-IsDone (suc fuel) n or_expr root pos lt k p =
    let q = and_loop or_expr fuel null pos in
    let d = and_loop-IsDone fuel n or_expr null pos (omega arith) k p in
    let next = gettoken q.pos.rest in
    elim (Bool-cases (is_noerr q.errcode && is_or q.pos.next_tok)) [
      | inr e ↦ rw (or_loop, e) (finish_chain-IsDone n Errcode.expctand root q refl d)
      | inl e ↦
          let (less, r) = next_lem n q.pos d.pos (or_cost q.pos.next_tok (ground arith)) in
          elim (Bool-cases (is_noerr next.errcode)) [
            | inr f ↦
                rw (or_loop, e, f)
                  (record { finished = r.finished; pos = more_room _ n _ (omega arith) r.pos })
            | inl f ↦
                rw (or_loop, e, f)
                  (IsDone-le _ n _ (omega arith) (
                    or_loop-IsDone fuel (length q.pos.rest) or_expr
                      (andor true (fill_right root q.node) unset) next.pos (omega arith)
                      (Handles-fewer _ n or_expr (omega arith) k) r.pos))
          ]
    ]

orexpr-IsDone :
    (fuel n : ℕ) (pos : Pos) → n + 3 < fuel → IsPos n pos → IsDone n (parse_orexpr fuel pos)
unfolding parse_orexpr Handles
orexpr-IsDone zero n pos lt p = absurd (omega arith)
orexpr-IsDone (suc fuel) n pos lt p =
    or_loop-IsDone fuel n (parse_orexpr fuel) null pos (omega arith)
      (λ m at less at_pos. orexpr-IsDone fuel m at (omega arith) at_pos) p

parse_rule-finishes :
    (rule : List ℕ) → AllBytes rule → is_unfinished (parse_rule (length rule + 5) rule).0 ≡ false
unfolding parse_rule is_unfinished
parse_rule-finishes rule b =
    let r = gettoken_lem rule b in
    let first = gettoken rule in
    let p = parse_orexpr (length rule + 5) first.pos in
    elim (Bool-cases (is_noerr first.errcode)) [
      | inr e ↦ rw (parse_rule, e) r.finished
      | inl e ↦
          let d = orexpr-IsDone (length rule + 5) (length rule) first.pos (omega arith) r.pos in
          elim (Bool-cases (is_noerr p.errcode)) [
            | inr o ↦ rw (parse_rule, e, o) d.finished
            | inl o ↦ elim (Bool-cases (is_null p.node)) [
              | inl z ↦ rw (parse_rule, e, o, z) refl
              | inr z ↦ elim (Bool-cases (is_end p.pos.next_tok)) [
                | inr c ↦ rw (parse_rule, e, o, z, c) refl
                | inl c ↦ rw (parse_rule, e, o, z, c) refl
              ]
            ]
          ]
    ]

-- No function of the tree has more arguments than a node has room for.
unfoldable pub few_arguments : Node → Bool
few_arguments (call f args) = leb (length args) cr_maxargs
few_arguments (andor is_or a b) = few_arguments a && few_arguments b
few_arguments (negation a) = few_arguments a
few_arguments _ = true

free_whole : (n : Node) → (has_operands n && few_arguments n) ≡ true → crule_free n ≡ true
unfolding has_operands few_arguments crule_free
free_whole null h = cc
free_whole unset h = cc
free_whole (call f args) h = h
free_whole (andor is_or a b) h = ground (arith, free_whole a, free_whole b)
free_whole (negation a) h = ground (arith, free_whole a)

-- The parser ends on every rule of bytes: it does not run out of fuel. A tree that it then gives up is
-- released without a read through a pointer that is not set, or else an operand is missing in it, or a
-- function has more than CR_MAXARGS arguments, the last of which were stored behind its node.
pub crule_parse-finishes :
    (rule : List ℕ)
    → AllBytes rule
    → (is_unfinished (crule_parse rule).0 ≡ false)
      × (((crule_parse rule).2 ≡ true)
          ⊎ ((has_operands (parse_rule (length rule + 5) rule).1
                && few_arguments (parse_rule (length rule + 5) rule).1)
              ≡ false))
unfolding crule_parse
crule_parse-finishes rule b =
    let r = parse_rule (length rule + 5) rule in
    let ends = parse_rule-finishes rule b in
    elim (Bool-cases (is_noerr r.0)) [
      | inl e ↦ rw (crule_parse, e) (ends, inl refl)
      | inr e ↦ elim (Bool-cases (has_operands r.1 && few_arguments r.1)) [
        | inr fault ↦ rw (crule_parse, e) (ends, inr fault)
        | inl whole ↦
            let freed : crule_free r.1 ≡ true = free_whole r.1 whole in
            rw (crule_parse, e) (ends, inl (ground arith))
      ]
    ]
