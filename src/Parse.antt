-- ===== src/Parse.antt =====
-- ircd/parse.c: how a line becomes a command with its parameters.
pub mod Tree
pub mod Registered
pub mod Words
pub mod Line
use irch.Base.{
  Bool, List, Option, arith, bit_and, bit_or, false, if◌then◌else◌, is_null, none, not, some, true,
  update, ℕ, ◌==◌,
}
use irch.Parse.Tree.{MessageTree, add_msg_element, del_msg_element, msg_tree_parse}

-- What the parser reads of `struct Message`; its counters and handlers are not here.
pub record Message : Type 0 where
  pub parameters : ℕ
  pub flags : ℕ
  pub extra : Option ℕ

-- `msg_tree`, `tok_tree`, and the messages that their numbers lead to.
pub record Commands : Type 0 where
  pub msg_tree : MessageTree
  pub tok_tree : MessageTree
  pub messages : ℕ → Message

-- `struct s_map`: its number, the command, and whether SMAP_FAST is set.
pub record ServiceMap : Type 0 where
  pub id : ℕ
  pub command : List ℕ
  pub fast : Bool

-- `msg` is the pointer that MyMalloc returns. MFLG_EXTRA is 8 and MFLG_SLOW is 1.
unfoldable pub register_mapping : Commands → ServiceMap → ℕ → Commands × Bool
register_mapping s map msg =
    if not (is_null (msg_tree_parse s.msg_tree map.command)) then (s, false) else (
      record s {
        msg_tree = add_msg_element s.msg_tree msg map.command;
        messages =
            update s.messages msg
              (record { parameters = 2; flags = if map.fast then 8 else 9; extra = some map.id });
      },
      true,
    )

-- `false` is the assertion that fails; `none` is a read through null.
unfoldable pub unregister_mapping : Commands → ServiceMap → Option (Commands × Bool)
unregister_mapping s map =
    if is_null (msg_tree_parse s.msg_tree map.command)
    then some (s, false)
    else (elim (del_msg_element s.msg_tree map.command) [
      | none ↦ none
      | some t ↦ some (record s { msg_tree = t }, true)
    ])
