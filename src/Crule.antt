-- ===== src/Crule.antt =====
-- ircd/crule.c: connection rules. The tree, and the scanner of the rule's text.
pub mod Same
pub mod Parse
pub mod Eval
pub mod Accepted
pub mod Runs
pub mod Progress
pub mod Finishes
pub mod Ends
use irch.Base.{
  ==_iff, Bool, Bool-cases, List, Option, Option-cases, [], all_below, all_below_sound, ap, arith,
  bit_and, bit_or, bit_xor, codes, dec_lt, drop, drop-append, drop-append_split, drop_ge, false,
  get_elem?, get_elem?-set_ne, get_elem?-set_self, get_or, if◌then◌else◌, inl, inr, leb, leb→le,
  length, length-append, length-drop, length-map, length-replicate, length-set, length-take, ltb,
  ltb→lt, lt→ltb, map, min, none, not, refl, replicate, set, some, suc, sym, tail, take,
  take-append, take-append-drop, take-append_split, take_all, take_ge, tests, true, update,
  update_ne, update_self, zero, ℕ, ℕ_discrete, ◌%◌, ◌&&◌, ◌*◌, ◌++◌, ◌+◌, ◌-◌, ◌/◌, ◌<◌, ◌==◌, ◌^◌,
  ◌||◌, ◌↔◌, ◌∙◌, ◌∷◌, ◌≡◌, ◌≢◌, ◌≤◌, ◌⊎◌,
}
use irch.Chattr.{to_lower, is_alpha, is_alnum}

-- enum crule_token
pub data Token : Type 0 where
  unknown end and_op or_op not_op open_paren close_paren comma word : Token

-- enum crule_errcode. `unfinished` belongs to the fuel.
pub data Errcode : Type 0 where
  noerr unexpcttok unknwtok expctand expctor expctprim expctopen expctclose unknwfunc argmismat :
      Errcode
  unfinished : Errcode

-- The rows of `crule_funclist`.
pub data Function : Type 0 where
  connected directcon via directop : Function

-- struct CRuleNode. `null` is a pointer that is 0, `unset` an `arg[1]` that has not been written;
-- `andor is_or` has `arg[2]` as its flag; a call that is not complete yet has no function.
pub data Node : Type 0 where
  null : Node
  unset : Node
  call : Option Function → List (List ℕ) → Node
  andor : Bool → Node → Node → Node
  negation : Node → Node

-- What `next_tokp` and `ruleptr` point to.
pub record Pos : Type 0 where
  pub next_tok : Token
  pub rest : List ℕ

pub record Scan : Type 0 where
  pub errcode : Errcode
  pub pos : Pos

abbrev cr_maxarglen : ℕ
cr_maxarglen = 80

unfoldable pub is_word_char : ℕ → Bool
is_word_char c = is_alnum c || c == b'*' || c == b'?' || c == b'.' || c == b'-'

unfoldable pub starts_word : ℕ → Bool
starts_word c = is_alpha c || c == b'*' || c == b'?' || c == b'.' || c == b'-'

unfoldable pub scanned : Token → List ℕ → Scan
scanned t s = record { errcode = noerr; pos = record { next_tok = t; rest = s } }

unfoldable pub scan_failed : List ℕ → Scan
scan_failed s = record { errcode = unknwtok; pos = record { next_tok = unknown; rest = s } }

-- The cases of the `switch` that end the scan at once.
unfoldable pub single_token : ℕ → List ℕ → Scan
single_token c s =
    if c == b'!'
    then scanned not_op s
    else if c == b'('
    then scanned open_paren s
    else if c == b')'
    then scanned close_paren s
    else if c == b','
    then scanned comma s
    else if c == b':'
    then scanned end s
    else if starts_word c
    then scanned word (c ∷ s)
    else scan_failed (c ∷ s)

-- `&` or `|`, and what `pending` allows: `onward` is the scan with `pending` set.
unfoldable pub double_token : Option ℕ → ℕ → Token → List ℕ → Scan → Scan
double_token none c t s onward = onward
double_token (some p) c t s onward = if p == c then scanned t s else scan_failed s

unfoldable pub next_pending : Option ℕ → ℕ → Option ℕ
next_pending pending c = if c == b'&' || c == b'|' then some c else pending

-- crule_gettoken
unfoldable pub gettoken_from : Option ℕ → List ℕ → Scan
gettoken_from pending [] = scanned end []
gettoken_from pending (c ∷ s) =
    let onward = gettoken_from (next_pending pending c) s in
    if c == b' ' || c == 9
    then onward
    else if c == b'&'
    then double_token pending c and_op s onward
    else if c == b'|'
    then double_token pending c or_op s onward
    else single_token c s

unfoldable pub gettoken : List ℕ → Scan
gettoken s = gettoken_from none s

-- crule_getword: the word and the text behind it.
unfoldable pub getword : ℕ → List ℕ → List ℕ × List ℕ
getword zero s = ([], s)
getword (suc n) [] = ([], [])
getword (suc n) (c ∷ s) =
    let more = getword n s in if is_word_char c then (c ∷ more.0, more.1) else ([], c ∷ s)

-- Whether `ircd_strcmp` of ircd/ircd_string.c returns 0; no text holds the code 0.
unfoldable pub same_text : List ℕ → List ℕ → Bool
same_text [] [] = true
same_text [] (c ∷ t) = false
same_text (c ∷ s) [] = false
same_text (c ∷ s) (d ∷ t) = let onward = same_text s t in to_lower c == to_lower d && onward

-- The search in `crule_funclist`.
unfoldable pub find_function : List ℕ → Option Function
find_function name =
    if same_text (codes "connected") name
    then some connected
    else if same_text (codes "directcon") name
    then some directcon
    else if same_text (codes "via") name
    then some via
    else if same_text (codes "directop") name
    then some directop
    else none

unfoldable pub reqnumargs : Function → ℕ
reqnumargs connected = 1
reqnumargs directcon = 1
reqnumargs via = 2
reqnumargs directop = 0
