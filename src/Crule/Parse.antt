-- ===== src/Crule/Parse.antt =====
-- ircd/crule.c: the parser. A loop that takes another parser as its argument takes `crule_parseorexpr`.
use irch.Base.{
  Bool, List, [], false, if◌then◌else◌, length, ltb, none, not, some, suc, true, zero, ℕ, ◌&&◌,
  ◌||◌, leb, ◌++◌, ◌+◌, ◌==◌, ◌∷◌,
}
use irch.Mask.Collapse.{collapse}
use irch.Crule.{
  Token, Errcode, noerr, unexpcttok, expctand, expctor, expctprim, expctopen, expctclose, unknwfunc,
  argmismat, Function, Node, null, unset, call, andor, negation, Pos, gettoken, getword,
  find_function, reqnumargs,
}
use irch.Crule.Token.{end, and_op, or_op, close_paren, comma, word, open_paren, not_op}
use irch.Crule.Errcode.{unfinished}

-- A parser's result: the C result, the node that its first argument points to, and the position.
pub record Parsed : Type 0 where
  pub errcode : Errcode
  pub node : Node
  pub pos : Pos

abbrev pub Parser : Type 0
Parser = Pos → Parsed

unfoldable pub is_noerr : Errcode → Bool
is_noerr noerr = true
is_noerr _ = false

unfoldable pub is_and : Token → Bool
is_and and_op = true
is_and _ = false

unfoldable pub is_or : Token → Bool
is_or or_op = true
is_or _ = false

unfoldable pub is_close : Token → Bool
is_close close_paren = true
is_close _ = false

unfoldable pub is_comma : Token → Bool
is_comma comma = true
is_comma _ = false

unfoldable pub is_open : Token → Bool
is_open open_paren = true
is_open _ = false

unfoldable pub is_end : Token → Bool
is_end end = true
is_end _ = false

unfoldable pub is_word : Token → Bool
is_word word = true
is_word _ = false

unfoldable pub is_null : Node → Bool
is_null null = true
is_null _ = false

-- CR_MAXARGS
abbrev pub cr_maxargs : ℕ
cr_maxargs = 3

-- The largest length of a word, CR_MAXARGLEN - 1.
abbrev pub max_word : ℕ
max_word = 79

pub record Arglist : Type 0 where
  pub errcode : Errcode
  pub args : List (List ℕ)
  pub pos : Pos

-- `currarg` with the next word of the argument. Its length is `arglen`.
unfoldable pub join_word : List ℕ → List ℕ → List ℕ
join_word [] w = w
join_word (c ∷ arg) w =
    if ltb (length (c ∷ arg) + length w) max_word then (c ∷ arg) ++ b' ' ∷ w else c ∷ arg

-- `arg[numargs++]`, unless the argument is empty. The source does not compare `numargs` with the room of
-- CR_MAXARGS; a list that is longer stands for writes behind the node, for which `crule_free` answers.
unfoldable pub store_arg : List (List ℕ) → List ℕ → List (List ℕ)
store_arg args [] = args
store_arg args (c ∷ arg) = args ++ (c ∷ arg) ∷ []

-- crule_parsearglist
unfoldable pub parse_arglist : ℕ → List (List ℕ) → List ℕ → Pos → Arglist
parse_arglist zero args currarg pos = record { errcode = unfinished; args = args; pos = pos }
parse_arglist (suc fuel) args currarg pos =
    let w = getword max_word pos.rest in
    let after_word = gettoken w.1 in
    let args' = store_arg args (collapse currarg) in
    let after_comma = gettoken pos.rest in
    elim (is_word pos.next_tok) [
      | true ↦ elim (is_noerr after_word.errcode) [
        | true ↦ parse_arglist fuel args (join_word currarg w.0) after_word.pos
        | false ↦ record { errcode = after_word.errcode; args = args; pos = after_word.pos }
      ]
      | false ↦ elim (is_comma pos.next_tok) [
        | false ↦ record { errcode = noerr; args = args'; pos = pos }
        | true ↦ elim (is_noerr after_comma.errcode) [
          | true ↦ parse_arglist fuel args' [] after_comma.pos
          | false ↦ record { errcode = after_comma.errcode; args = args'; pos = after_comma.pos }
        ]
      ]
    ]

-- The end of `crule_parsefunction`, behind the argument list.
unfoldable pub finish_function : Function → Arglist → Parsed
finish_function f a =
    let node = call none a.args in
    let next = gettoken a.pos.rest in
    if not (is_noerr a.errcode)
    then record { errcode = a.errcode; node = node; pos = a.pos }
    else if not (is_close a.pos.next_tok)
    then record { errcode = expctclose; node = node; pos = a.pos }
    else if not (reqnumargs f == length a.args)
    then record { errcode = argmismat; node = node; pos = a.pos }
    else if not (is_noerr next.errcode)
    then record { errcode = next.errcode; node = node; pos = next.pos }
    else record { errcode = noerr; node = call (some f) a.args; pos = next.pos }

-- crule_parsefunction
unfoldable pub parse_function : ℕ → Parser
parse_function fuel pos =
    let (name, behind) = getword max_word pos.rest in
    let next = gettoken behind in
    let inside = gettoken next.pos.rest in
    if not (is_noerr next.errcode)
    then record { errcode = next.errcode; node = null; pos = next.pos }
    else if not (is_open next.pos.next_tok)
    then record { errcode = expctopen; node = null; pos = next.pos }
    else (elim (find_function name) [
      | none ↦ record { errcode = unknwfunc; node = null; pos = next.pos }
      | some f ↦
          if not (is_noerr inside.errcode)
          then record { errcode = inside.errcode; node = null; pos = inside.pos }
          else finish_function f (parse_arglist fuel [] [] inside.pos)
    ])

-- The case CR_OPENPAREN.
unfoldable pub parse_paren : Parser → Parser
parse_paren or_expr pos =
    let first = gettoken pos.rest in
    elim (is_noerr first.errcode) [
      | false ↦ record { errcode = first.errcode; node = null; pos = first.pos }
      | true ↦
          let p = or_expr first.pos in
          let behind = gettoken p.pos.rest in
          if not (is_noerr p.errcode)
          then p
          else if is_null p.node
          then record p { errcode = expctand }
          else if not (is_close p.pos.next_tok)
          then record p { errcode = expctclose }
          else record p { errcode = behind.errcode; pos = behind.pos }
    ]

-- crule_parseprimary. `negated` says that `*primrootp` is not 0.
unfoldable pub parse_primary : Parser → ℕ → Bool → Parser
parse_primary or_expr zero negated pos = record { errcode = unfinished; node = null; pos = pos }
parse_primary or_expr (suc fuel) negated pos = elim pos.next_tok [
  | open_paren ↦ parse_paren or_expr pos
  | not_op ↦
      let next = gettoken pos.rest in
      elim (is_noerr next.errcode) [
        | false ↦ record { errcode = next.errcode; node = negation null; pos = next.pos }
        | true ↦
            let p = parse_primary or_expr fuel true next.pos in record p { node = negation p.node }
      ]
  | word ↦ parse_function fuel pos
  | _ ↦ record { errcode = if negated then expctprim else noerr; node = null; pos = pos }
]

-- `(*rootp)->arg[1] = operand`, or the operand itself if there is no root.
unfoldable pub fill_right : Node → Node → Node
fill_right (andor is_or a b) operand = andor is_or a operand
fill_right _ operand = operand

-- The loop's end, where `missing` is the error for a missing right operand.
unfoldable pub finish_chain : Errcode → Node → Parsed → Parsed
finish_chain missing root p = if is_null root then p else record p {
  errcode = if is_null p.node then missing else p.errcode;
  node = fill_right root p.node;
}

-- crule_parseandexpr
unfoldable pub and_loop : Parser → ℕ → Node → Parser
and_loop or_expr zero root pos = record { errcode = unfinished; node = root; pos = pos }
and_loop or_expr (suc fuel) root pos =
    let p = parse_primary or_expr fuel false pos in
    let next = gettoken p.pos.rest in
    let root' = andor false (fill_right root p.node) unset in
    elim (is_noerr p.errcode && is_and p.pos.next_tok) [
      | false ↦ finish_chain expctprim root p
      | true ↦ elim (is_noerr next.errcode) [
        | false ↦ record { errcode = next.errcode; node = root'; pos = next.pos }
        | true ↦ and_loop or_expr fuel root' next.pos
      ]
    ]

-- crule_parseorexpr
unfoldable pub or_loop : Parser → ℕ → Node → Parser
or_loop or_expr zero root pos = record { errcode = unfinished; node = root; pos = pos }
or_loop or_expr (suc fuel) root pos =
    let p = and_loop or_expr fuel null pos in
    let next = gettoken p.pos.rest in
    let root' = andor true (fill_right root p.node) unset in
    elim (is_noerr p.errcode && is_or p.pos.next_tok) [
      | false ↦ finish_chain expctand root p
      | true ↦ elim (is_noerr next.errcode) [
        | false ↦ record { errcode = next.errcode; node = root'; pos = next.pos }
        | true ↦ or_loop or_expr fuel root' next.pos
      ]
    ]

-- The fuel bounds the depth of the parentheses.
unfoldable pub parse_orexpr : ℕ → Parser
parse_orexpr zero pos = record { errcode = unfinished; node = null; pos = pos }
parse_orexpr (suc fuel) pos = or_loop (parse_orexpr fuel) fuel null pos

-- crule_free: whether it goes through. It follows the left operand of an operator in any case, and it
-- has no list to follow where an argument was stored behind the CR_MAXARGS that a node has room for.
unfoldable pub crule_free : Node → Bool
crule_free null = false
crule_free unset = false
crule_free (call f args) = leb (length args) cr_maxargs
crule_free (andor is_or a b) =
    let left = crule_free a in let right = crule_free b in left && (is_null b || right)
crule_free (negation a) = let operand = crule_free a in is_null a || operand

-- crule_parse up to the release: the error, and what `ruleroot` points to.
unfoldable pub parse_rule : ℕ → List ℕ → Errcode × Node
parse_rule fuel rule =
    let first = gettoken rule in
    let p = parse_orexpr fuel first.pos in
    elim (is_noerr first.errcode) [
      | false ↦ (first.errcode, null)
      | true ↦
          if not (is_noerr p.errcode)
          then (p.errcode, p.node)
          else if is_null p.node
          then (expctor, null)
          else if not (is_end p.pos.next_tok)
          then (unexpcttok, p.node)
          else (noerr, p.node)
    ]

-- The error, the C result, and whether the release of a tree that is given up goes through.
unfoldable pub crule_parse : List ℕ → Errcode × Node × Bool
crule_parse rule =
    let r = parse_rule (length rule + 5) rule in
    if is_noerr r.0 then (r.0, r.1, true) else (r.0, null, is_null r.1 || crule_free r.1)
