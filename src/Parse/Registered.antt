-- ===== src/Parse/Registered.antt =====
-- ircd/parse.c: the commands that stand for services come and go with the configuration.
use irch.Base.{
  Bool, List, [], arith, if◌then◌else◌, none, refl, some, true, update, ℕ, ◌&&◌, ◌∷◌, ◌≡◌,
}
use irch.Chattr.{is_alpha}
use irch.Parse.{Commands, ServiceMap, register_mapping, unregister_mapping}
use irch.Parse.Tree.{
  MessageTree, add_msg_element, del_msg_element, is_read_as, keep, msg_tree_parse,
  msg_tree_parse-add, msg_tree_parse-del, node, null, slot,
}

-- As `strIsAlpha` of the configuration's grammar checks.
unfoldable pub all_letters : List ℕ → Bool
all_letters [] = true
all_letters (c ∷ cmd) = is_alpha c && all_letters cmd

read_as_self : (cmd : List ℕ) → all_letters cmd ≡ true → is_read_as cmd cmd ≡ true
unfolding is_read_as all_letters
read_as_self [] h = refl
read_as_self (c ∷ cmd) h = ground (arith, read_as_self cmd)

parse-read_as :
    (t : MessageTree) (cmd text : List ℕ)
    → all_letters cmd ≡ true
    → is_read_as cmd text ≡ true
    → msg_tree_parse t text ≡ msg_tree_parse t cmd
unfolding is_read_as all_letters msg_tree_parse
parse-read_as null [] [] l h = refl
parse-read_as null [] (d ∷ text) l h = cc
parse-read_as null (c ∷ cmd) [] l h = cc
parse-read_as null (c ∷ cmd) (d ∷ text) l h = refl
parse-read_as (node m pointers) [] [] l h = refl
parse-read_as (node m pointers) [] (d ∷ text) l h = cc
parse-read_as (node m pointers) (c ∷ cmd) [] l h = cc
parse-read_as (node m pointers) (c ∷ cmd) (d ∷ text) l h =
    ground (arith, parse-read_as (pointers (slot d)) cmd text)

del-add :
    (t : MessageTree) (msg : ℕ) (cmd : List ℕ)
    → (t' : MessageTree) × (del_msg_element (add_msg_element t msg cmd) cmd ≡ some t')
unfolding del_msg_element add_msg_element
del-add null msg [] = (node none (λ i. null), refl)
del-add null msg (c ∷ cmd) =
    let (child, e) = del-add null msg cmd in
    (
      node none (
          update (update (λ i. null) (slot c) (add_msg_element null msg cmd)) (slot c)
            (keep child)),
      ground arith,
    )
del-add (node m pointers) msg [] = (node none pointers, refl)
del-add (node m pointers) msg (c ∷ cmd) =
    let (child, e) = del-add (pointers (slot c)) msg cmd in
    (
      node m (
          update (update pointers (slot c) (add_msg_element (pointers (slot c)) msg cmd)) (slot c)
            (keep child)),
      ground arith,
    )

-- A mapping whose command is made of letters and is not in use is registered: the command is then read
-- as the new message, in either case of the letters, every other text is read as before, and when the
-- mapping is unregistered every text is read as it was before.
pub unregister_mapping-register_mapping :
    (s : Commands) (map : ServiceMap) (msg : ℕ)
    → all_letters map.command ≡ true
    → msg_tree_parse s.msg_tree map.command ≡ none
    → ((text : List ℕ)
        → msg_tree_parse (register_mapping s map msg).0.msg_tree text
          ≡ (if is_read_as map.command text then some msg else msg_tree_parse s.msg_tree text))
      × ((s' : Commands) × (unregister_mapping (register_mapping s map msg).0 map ≡ some (s', true))
          × ((text : List ℕ) → msg_tree_parse s'.msg_tree text ≡ msg_tree_parse s.msg_tree text))
unfolding register_mapping unregister_mapping
unregister_mapping-register_mapping s map msg letters unused =
    let added : MessageTree = add_msg_element s.msg_tree msg map.command in
    let (t, e) = del-add s.msg_tree msg map.command in
    let here : msg_tree_parse added map.command ≡ some msg = ground (
      arith,
      msg_tree_parse-add s.msg_tree msg map.command map.command,
      read_as_self map.command,
    ) in
    let t_read = λ (text : List ℕ). msg_tree_parse-del added map.command text t e in
    rw (unused, here, e)
      (
        λ text. msg_tree_parse-add s.msg_tree msg map.command text,
        (
          record (register_mapping s map msg).0 { msg_tree = t },
          refl,
          λ text. ground (
            arith,
            t_read text,
            msg_tree_parse-add s.msg_tree msg map.command text,
            parse-read_as s.msg_tree map.command text,
          ),
        ),
      )
