-- ===== src/Tests/Lines.antt =====
-- ircd/parse.c on small trees and lines.
use irch.Base.{
  List, [], arith, codes, false, if◌then◌else◌, length, min, none, refl, some, suc, true, ℕ, ◌++◌,
  ◌+◌, ◌<◌, ◌≡◌, ◌≤◌, ◌∷◌,
}
use irch.Chattr.{is_alpha}
use irch.Parse.{Commands, ServiceMap, register_mapping, unregister_mapping}
use irch.Parse.Line.{Network, message, numeric, crash, parse_client, parse_server}
use irch.Parse.Line.Numerics.{parse_server-numeric}
use irch.Parse.Line.Reads.{parse_client-line_of}
use irch.Parse.Registered.{all_letters, unregister_mapping-register_mapping}
use irch.Parse.Tree.{add_msg_element, is_read_as, msg_tree_parse, node, null}
use irch.Parse.Words.{maxpara, parameters, split}
use irch.Parse.Words.Bounds.{parameters-bounds}
use irch.Parse.Words.RoundTrip.{are_middle, has_no_blank, is_middle, line_of}

abbrev commands : Commands
commands = record {
  msg_tree = add_msg_element (node none (λ i. null)) 4 (codes "JOIN");
  tok_tree = node none (λ i. null);
  messages = λ m. record { parameters = 15; flags = 1; extra = none };
}

abbrev chan_service : ServiceMap
chan_service = record { id = 9; command = codes "CHAN"; fast = false }

unused : msg_tree_parse commands.msg_tree (codes "CHAN") ≡ none
unfolding msg_tree_parse add_msg_element is_alpha
unused = refl

known : msg_tree_parse commands.msg_tree (codes "JOIN") ≡ some 4
unfolding msg_tree_parse add_msg_element is_alpha
known = refl

letters : all_letters (codes "CHAN") ≡ true
unfolding all_letters is_alpha
letters = refl

unregister_mapping-register_mapping_example :
    ((text : List ℕ)
      → msg_tree_parse (register_mapping commands chan_service 5).0.msg_tree text ≡ (
          if is_read_as (codes "CHAN") text then some 5 else msg_tree_parse commands.msg_tree text))
    × ((s' : Commands) × (unregister_mapping
            (register_mapping commands chan_service 5).0
            chan_service
          ≡ some (s', true))
        × ((text : List ℕ)
            → msg_tree_parse s'.msg_tree text ≡ msg_tree_parse commands.msg_tree text))
unregister_mapping-register_mapping_example =
    unregister_mapping-register_mapping commands chan_service 5 letters unused

join_is_middle : is_middle (codes "JOIN") ≡ true
unfolding is_middle has_no_blank
join_is_middle = refl

channel_is_middle : are_middle (codes "#irch" ∷ []) ≡ true
unfolding are_middle is_middle has_no_blank
channel_is_middle = refl

parse_client-line_of_example :
    parse_client commands false 3
      (codes "JOIN" ++ b' ' ∷ line_of (codes "#irch" ∷ []) (codes "a key"))
    ≡ message 4 3 none (codes "#irch" ∷ codes "a key" ∷ [])
parse_client-line_of_example =
    parse_client-line_of commands 3 4 (codes "JOIN") (codes "#irch" ∷ []) (codes "a key")
      join_is_middle known refl channel_is_middle (omega arith) (omega arith)

parameters-bounds_example :
    (suc (0 + length (parameters false 15 0 (codes "#irch :a key"))) < maxpara + 2)
    × (0 + length (parameters false 15 0 (codes "#irch :a key")) ≤ 15)
    × (split 20 false (min 15 maxpara) 0 (codes "#irch :a key")
        ≡ parameters false 15 0 (codes "#irch :a key"))
parameters-bounds_example =
    parameters-bounds false 15 0 20 (codes "#irch :a key") (omega arith) (omega arith) (omega arith)

-- The link to server 7, which is known as AB.
abbrev network : Network
network = record {
  find_client = λ name. none;
  find_n_server = λ name. some 7;
  find_n_user = λ name. none;
  cli_from = λ c. 7;
}

target_is_middle : is_middle (codes "ABAAA") ≡ true
unfolding is_middle has_no_blank
target_is_middle = refl

parse_server-numeric_example :
    parse_server commands network false 7 (codes "AB 001 ABAAA :hi there")
    ≡ numeric 1 7 (codes "ABAAA" ∷ codes ":hi there" ∷ [])
parse_server-numeric_example =
    parse_server-numeric commands network 7 7 b'A' b'B' 0 0 1 (codes "ABAAA") b':'
      (codes "hi there") refl refl refl refl refl (omega arith) (omega arith) (omega arith)
      target_is_middle refl

-- The same with the number 0.
numeric_zero : parse_server commands network false 7 (codes "AB 000 ABAAA :hi there") ≡ crash
numeric_zero =
    parse_server-numeric commands network 7 7 b'A' b'B' 0 0 0 (codes "ABAAA") b':'
      (codes "hi there") refl refl refl refl refl (omega arith) (omega arith) (omega arith)
      target_is_middle refl
