-- ===== src/Tests/Rules.antt =====
-- ircd/crule.c on small rules.
use irch.Base.{
  Bool, length, ◌+◌, ◌&&◌, ◌⊎◌, List, [], ap, arith, codes, false, none, refl, some, true, ℕ, ◌∷◌,
  ◌≡◌,
}
use irch.Crule.{
  Errcode, Node, null, call, andor, noerr, directop, negation, connected, via, gettoken,
  gettoken_from, double_token, next_pending, scanned, single_token, starts_word, find_function,
  getword, is_word_char, reqnumargs, same_text, scan_failed,
}
use irch.Chattr.{is_alnum, is_alpha, to_lower}
use irch.Mask.Items.{is_wild}
use irch.Mask.Collapse.{collapse, squeeze}
use irch.Crule.Parse.{
  parse_rule, parse_orexpr, or_loop, and_loop, parse_primary, is_and, finish_chain, is_or,
  fill_right, finish_function, is_close, is_comma, is_end, is_open, is_word, join_word,
  parse_arglist, parse_function, parse_paren, store_arg, is_noerr, is_null, crule_free, crule_parse,
}
use irch.Crule.Eval.{Clients, crule_eval}
use irch.Crule.Accepted.{well_formed, crule_parse-well_formed}
use irch.Crule.Runs.{has_operands, holds, crule_parse-runs}
use irch.Crule.Progress.{AllBytes, is_unfinished}
use irch.Crule.Ends.{few_arguments, crule_parse-finishes}

abbrev rule : List ℕ
rule = codes "!connected(*.foo) && (directop() || via(a b,c))"

abbrev clients : Clients
clients = record {
  global =
      record {
        name = codes "x.org";
        from = codes "x.org";
        is_server = true;
        is_me = false;
        is_an_oper = false;
      }
      ∷ [];
  local =
      none
      ∷ some (record {
        name = codes "op";
        from = codes "op";
        is_server = false;
        is_me = false;
        is_an_oper = true;
      })
      ∷ [];
}

-- A rule without the first operand is accepted, with a pointer that is 0.
operand_missing :
    crule_parse (codes "|| directop()") ≡ (noerr, andor true null (call (some directop) []), true)
unfolding crule_parse parse_rule is_noerr gettoken gettoken_from double_token next_pending scanned
    parse_orexpr or_loop and_loop parse_primary is_and finish_chain is_null is_or single_token
    starts_word is_alnum is_alpha to_lower fill_right finish_function is_close is_comma is_end
    is_open is_word join_word parse_arglist parse_function parse_paren store_arg find_function
    getword is_word_char reqnumargs same_text scan_failed collapse squeeze is_wild
operand_missing = refl

operand_read : crule_eval clients (crule_parse (codes "|| directop()")).1 ≡ none
unfolding crule_eval
operand_read = ap (λ (p : Errcode × Node × Bool). crule_eval clients p.1) operand_missing

rule_parsed : crule_parse rule ≡ (
  noerr,
  andor false
      (negation (call (some connected) (codes "*.foo" ∷ [])))
      (andor true (call (some directop) []) (call (some via) (codes "a b" ∷ codes "c" ∷ []))),
  true,
)
unfolding crule_parse parse_rule is_noerr gettoken gettoken_from double_token next_pending scanned
    parse_orexpr or_loop and_loop parse_primary is_and finish_chain is_null is_or single_token
    starts_word is_alnum is_alpha to_lower fill_right finish_function is_close is_comma is_end
    is_open is_word join_word parse_arglist parse_function parse_paren store_arg find_function
    getword is_word_char reqnumargs same_text scan_failed collapse squeeze is_wild
rule_parsed = refl

rule_accepted : is_noerr (crule_parse rule).0 ≡ true
unfolding is_noerr
rule_accepted = ap (λ (p : Errcode × Node × Bool). is_noerr p.0) rule_parsed

rule-has_operands : has_operands (crule_parse rule).1 ≡ true
unfolding has_operands
rule-has_operands = ap (λ (p : Errcode × Node × Bool). has_operands p.1) rule_parsed

crule_parse-well_formed_example :
    (well_formed (crule_parse rule).1 ≡ true) × (is_null (crule_parse rule).1 ≡ false)
crule_parse-well_formed_example = crule_parse-well_formed rule rule_accepted

crule_parse-runs_example :
    crule_eval clients (crule_parse rule).1 ≡ some (holds clients (crule_parse rule).1)
crule_parse-runs_example = crule_parse-runs clients rule rule_accepted rule-has_operands

-- A rule that is given up without the first operand of its operator: `crule_free` follows the pointer.
short_rule_crashes : (crule_parse (codes "&& (via(a")).2 ≡ false
unfolding crule_parse parse_rule is_noerr gettoken gettoken_from double_token next_pending scanned
    parse_orexpr or_loop and_loop parse_primary is_and finish_chain is_null is_or single_token
    starts_word is_alnum is_alpha to_lower fill_right finish_function is_close is_comma is_end
    is_open is_word join_word parse_arglist parse_function parse_paren store_arg find_function
    getword is_word_char reqnumargs same_text scan_failed collapse squeeze is_wild crule_free
short_rule_crashes = refl

abbrev short_rule : List ℕ
short_rule = codes "!directop() || via(a"

short_rule_bytes : AllBytes short_rule
short_rule_bytes = omega arith

crule_parse-finishes_example :
    (is_unfinished (crule_parse short_rule).0 ≡ false)
    × (((crule_parse short_rule).2 ≡ true)
        ⊎ ((has_operands (parse_rule (length short_rule + 5) short_rule).1
              && few_arguments (parse_rule (length short_rule + 5) short_rule).1)
            ≡ false))
crule_parse-finishes_example = crule_parse-finishes short_rule short_rule_bytes
