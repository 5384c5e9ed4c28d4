-- ===== src/Parse/Line.antt =====
-- ircd/parse.c: lines of clients and of servers. The counters of ServerStats and of the messages and the
-- replies to the sender are not here.
pub mod Reads
pub mod Numerics
use irch.Base.{
  Bool, List, Option, [], arith, bit_and, drop, false, get_or, if◌then◌else◌, length, not, none,
  some, suc, take, true, ℕ, ◌%◌, ◌^◌, ◌&&◌, ◌*◌, ◌+◌, ◌-◌, ◌/◌, ◌==◌, ◌||◌, ◌∷◌,
}
use irch.Chattr.{is_digit}
use irch.Parse.{Commands, Message}
use irch.Parse.Tree.{msg_tree_parse}
use irch.Parse.Words.{parameters, past_word, skip_blanks, word}

-- What becomes of a line: an answer 0 or -1, a numeric or a message whose handler is called with `extra`
-- and the parameters, a protocol violation before that, or a read through null or behind the line.
pub data Outcome : Type 0 where
  ignored : Outcome
  refused : Outcome
  numeric : (number source : ℕ) → List (List ℕ) → Outcome
  message : (msg source : ℕ) → Option ℕ → List (List ℕ) → Outcome
  crash : Outcome

-- `strchr(s, ' ')` and the text behind the blank.
unfoldable pub behind_blank : List ℕ → Option (List ℕ)
behind_blank s = elim (past_word s) [ [] ↦ none | c ∷ rest ↦ some rest ]

unfoldable pub parameters_behind : Bool → ℕ → ℕ → Option (List ℕ) → List (List ℕ)
parameters_behind keeps_colon paramcount i none = []
parameters_behind keeps_colon paramcount i (some s) = parameters keeps_colon paramcount i s

-- A message with its parameters; MFLG_EXTRA is 8. `s` is null if nothing stands behind the command.
unfoldable pub dispatch : Commands → ℕ → ℕ → Option (List ℕ) → Outcome
dispatch commands source msg s =
    let m = commands.messages msg in
    if bit_and m.flags 8 == 0
    then message msg source none (parameters_behind false m.parameters 0 s)
    else message msg source m.extra (parameters_behind false m.parameters 1 s)

unfoldable pub command_of_client : List ℕ → List ℕ
command_of_client buffer = elim (skip_blanks buffer) [
  | [] ↦ []
  | c ∷ s ↦ if c == b':' then skip_blanks (past_word s) else c ∷ s
]

-- `is_dead` tells whether the client is gone.
unfoldable pub parse_client : Commands → Bool → ℕ → List ℕ → Outcome
parse_client commands is_dead cptr buffer =
    let ch = command_of_client buffer in
    if is_dead then ignored else (elim ch [
      | [] ↦ refused
      | c ∷ s ↦ elim (msg_tree_parse commands.msg_tree (word (c ∷ s))) [
        | none ↦ refused
        | some msg ↦ dispatch commands cptr msg (behind_blank (c ∷ s))
      ]
    ])

-- FindClient, FindNServer, findNUser and `cli_from`.
pub record Network : Type 0 where
  pub find_client : List ℕ → Option ℕ
  pub find_n_server : List ℕ → Option ℕ
  pub find_n_user : List ℕ → Option ℕ
  pub cli_from : ℕ → ℕ

-- `s[i]`, where 0 is the NUL.
unfoldable pub char_at : List ℕ → ℕ → ℕ
char_at s i = get_or s i 0

-- Who sends the line and what is left of it; `lost` is an answer 0.
pub data Source : Type 0 where
  found : ℕ → List ℕ → Source
  lost : Source
  bad : Source
  overrun : Source

-- The sender has to be in the direction of the link.
unfoldable pub directed : Network → ℕ → ℕ → List ℕ → Source
directed net cptr source s = if net.cli_from source == cptr then found source s else lost

-- A name behind a colon: `ch` is the text from the colon on.
unfoldable pub named_source : Network → ℕ → List ℕ → Source
named_source net cptr ch = elim (behind_blank ch) [
  | none ↦ bad
  | some rest ↦ elim (net.find_client (drop 1 (word ch))) [
    | some source ↦ directed net cptr source rest
    | none ↦ let s = skip_blanks rest in if char_at s 1 == b'Q' then found cptr s else lost
  ]
]

-- At most five characters of a numeric.
unfoldable pub numeric_prefix : List ℕ → List ℕ
numeric_prefix ch = word (take 5 ch)

-- `do ++ch; while (*ch != ' ' && *ch);`: `none` steps over the NUL.
unfoldable pub past_prefix : List ℕ → Option (List ℕ)
past_prefix [] = none
past_prefix (c ∷ s) = some (past_word s)

-- What may come from a sender that is unknown: SQUIT, and the tokens D and KL.
unfoldable pub may_pass : List ℕ → Bool
may_pass s =
    char_at s 1 == b'Q'
    || (char_at s 0 == b'D' && char_at s 1 == b' ')
    || (char_at s 0 == b'K' && char_at s 2 == b'L')

unfoldable pub find_prefix : Network → ℕ → List ℕ → Option ℕ
find_prefix net cptr ch =
    if length (numeric_prefix ch) == 0
    then some cptr
    else if char_at ch 1 == b' ' || char_at ch 2 == b' '
    then net.find_n_server (numeric_prefix ch)
    else net.find_n_user (numeric_prefix ch)

unfoldable pub numeric_source : Network → ℕ → List ℕ → Source
numeric_source net cptr ch = elim (past_prefix ch) [
  | none ↦ overrun
  | some rest ↦ elim (find_prefix net cptr ch) [
    | some source ↦ directed net cptr source rest
    | none ↦ let s = skip_blanks rest in if may_pass s then directed net cptr cptr s else lost
  ]
]

unfoldable pub source_of : Network → ℕ → List ℕ → Source
source_of net cptr buffer =
    if char_at buffer 0 == b':'
    then named_source net cptr buffer
    else numeric_source net cptr buffer

-- `(*ch - '0') * 100 + (*(ch + 1) - '0') * 10 + (*(ch + 2) - '0')` as a word, for ASCII: it may be negative.
unfoldable pub number_of : List ℕ → ℕ
number_of ch =
    (char_at ch 0 * 100 + char_at ch 1 * 10 + char_at ch 2 + 2 ^ 32 - b'0' * 111) % 2 ^ 32

-- The end of `parse_server`: `number` is 0 for a line that is no numeric, and `mptr` may be null.
unfoldable pub deliver : ℕ → ℕ → Option ℕ → List (List ℕ) → Outcome
deliver number source mptr para =
    if number == 0
    then (elim mptr [ none ↦ crash | some msg ↦ message msg source none para ])
    else numeric number source para

-- A line with three characters that start with a digit: `mptr` is set to null, and `paramcount` to 2.
unfoldable pub numeric_line : ℕ → List ℕ → List ℕ → Outcome
numeric_line source ch s =
    let number = number_of ch in deliver number source none (parameters (not (number == 0)) 2 0 s)

-- A server's parameters start behind the sender also where MFLG_EXTRA is set.
unfoldable pub call : Commands → ℕ → ℕ → Option (List ℕ) → Outcome
call commands source msg s =
    deliver 0 source (some msg) (parameters_behind false (commands.messages msg).parameters 0 s)

unfoldable pub message_line : Commands → ℕ → List ℕ → Option (List ℕ) → Outcome
message_line commands source ch s = elim (msg_tree_parse commands.tok_tree (word ch)) [
  | some msg ↦ call commands source msg s
  | none ↦ elim (msg_tree_parse commands.msg_tree (word ch)) [
    | some msg ↦ call commands source msg s
    | none ↦ refused
  ]
]

unfoldable pub server_line : Commands → ℕ → List ℕ → Outcome
server_line commands source ch = elim ch [
  | [] ↦ refused
  | c ∷ rest ↦ elim (behind_blank (c ∷ rest)) [
    | none ↦ message_line commands source (c ∷ rest) none
    | some s ↦
        if length (word (c ∷ rest)) == 3 && is_digit c
        then numeric_line source (c ∷ rest) (b' ' ∷ s)
        else message_line commands source (c ∷ rest) (some s)
  ]
]

unfoldable pub parse_server : Commands → Network → Bool → ℕ → List ℕ → Outcome
parse_server commands net is_dead cptr buffer =
    if is_dead then ignored else (elim (source_of net cptr buffer) [
      | found source rest ↦ server_line commands source (skip_blanks rest)
      | lost ↦ ignored
      | bad ↦ refused
      | overrun ↦ crash
    ])
