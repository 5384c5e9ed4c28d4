-- ===== src/Parse/Line/Reads.antt =====
-- ircd/parse.c: which message a line reaches.
use irch.Base.{
  List, [], arith, bit_and, false, length, none, refl, some, true, ℕ, ◌++◌, ◌<◌, ◌∷◌, ◌≡◌,
}
use irch.Parse.{Commands}
use irch.Parse.Line.{
  behind_blank, command_of_client, dispatch, message, parameters_behind, parse_client,
}
use irch.Parse.Tree.{msg_tree_parse}
use irch.Parse.Words.{maxpara, parameters, skip_blanks, word}
use irch.Parse.Words.RoundTrip.{
  are_middle, has_no_blank, is_middle, line_of, parameters-line_of, past_word-append, word-append,
}

module _ (c : ℕ) (cmd rest : List ℕ) (h : is_middle (c ∷ cmd) ≡ true) where
  command_of_client-append : command_of_client (c ∷ cmd ++ b' ' ∷ rest) ≡ c ∷ cmd ++ b' ' ∷ rest
  unfolding command_of_client skip_blanks is_middle has_no_blank
  command_of_client-append = ground arith

  no_blank : has_no_blank (c ∷ cmd) ≡ true
  unfolding is_middle
  no_blank = ground arith

  behind_blank-append : behind_blank (c ∷ cmd ++ b' ' ∷ rest) ≡ some rest
  unfolding behind_blank
  behind_blank-append = rw (behind_blank, past_word-append (c ∷ cmd) rest no_blank) refl

-- A client's line of a command that is known and not marked MFLG_EXTRA, and of parameters as in
-- `parameters-line_of`, one less than the command takes at most and less than MAXPARA, and a last one,
-- reaches the command's message with these parameters.
pub parse_client-line_of :
    (commands : Commands) (cptr msg : ℕ) (cmd : List ℕ) (ps : List (List ℕ)) (last : List ℕ)
    → is_middle cmd ≡ true
    → msg_tree_parse commands.msg_tree cmd ≡ some msg
    → bit_and (commands.messages msg).flags 8 ≡ 0
    → are_middle ps ≡ true
    → length ps < (commands.messages msg).parameters
    → length ps < maxpara
    → parse_client commands false cptr (cmd ++ b' ' ∷ line_of ps last)
      ≡ message msg cptr none (ps ++ last ∷ [])
unfolding parse_client dispatch parameters_behind is_middle
parse_client-line_of commands cptr msg [] ps last c known plain h room fits = cc
parse_client-line_of commands cptr msg (c ∷ cmd) ps last middle known plain h room fits =
    let rest : List ℕ = line_of ps last in
    let ch : List ℕ = c ∷ cmd ++ b' ' ∷ rest in
    let e : command_of_client ch ≡ ch = command_of_client-append c cmd rest middle in
    let w : word ch ≡ c ∷ cmd = word-append (c ∷ cmd) rest (no_blank c cmd rest middle) in
    let b : behind_blank ch ≡ some rest = behind_blank-append c cmd rest middle in
    let p : parameters false (commands.messages msg).parameters 0 rest ≡ ps ++ last ∷ [] =
      parameters-line_of (commands.messages msg).parameters 0 ps last h (omega arith)
        (omega arith) in
    rw (parse_client, e, w, known, b, dispatch, plain, p) refl
