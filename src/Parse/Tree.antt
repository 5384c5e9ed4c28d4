-- ===== src/Parse/Tree.antt =====
-- ircd/parse.c: the trees in which the commands are looked up by their letters.
use irch.Base.{
  Bool, Bool-cases, List, Option, [], all_below, all_below_sound, arith, false, if◌then◌else◌, inl,
  inr, is_null, none, refl, some, true, update, ℕ, ◌%◌, ◌&&◌, ◌==◌, ◌∷◌, ◌≡◌, Option-cases,
}
use irch.Chattr.{is_alpha}

-- `struct MessageTree *`: null, or a node with its message, which is a number, and its `pointers`.
pub data MessageTree : Type 0 where
  null : MessageTree
  node : Option ℕ → (ℕ → MessageTree) → MessageTree

-- `*cmd & (MAXPTRLEN-1)`, where MAXPTRLEN is 32.
unfoldable pub slot : ℕ → ℕ
slot c = c % 32

-- A pointer that is null gets a new node.
unfoldable pub add_msg_element : MessageTree → ℕ → List ℕ → MessageTree
unfolding slot
add_msg_element null msg [] = node (some msg) (λ i. null)
add_msg_element null msg (c ∷ cmd) =
    node none (update (λ i. null) (slot c) (add_msg_element null msg cmd))
add_msg_element (node m pointers) msg [] = node (some msg) pointers
add_msg_element (node m pointers) msg (c ∷ cmd) =
    node m (update pointers (slot c) (add_msg_element (pointers (slot c)) msg cmd))

unfoldable pub is_null_tree : MessageTree → Bool
is_null_tree null = true
is_null_tree (node m pointers) = false

-- A node with no message and no child is freed.
unfoldable pub keep : MessageTree → MessageTree
unfolding is_null_tree
keep null = null
keep (node m pointers) =
    if is_null m && all_below 32 (λ i. is_null_tree (pointers i)) then null else node m pointers

-- `del_msg_element` as it leaves the node that it is given; `keep` is what it returns, which its callers
-- ignore for a root. `none` is a read through null.
unfoldable pub del_msg_element : MessageTree → List ℕ → Option MessageTree
unfolding slot keep
del_msg_element null cmd = none
del_msg_element (node m pointers) [] = some (node none pointers)
del_msg_element (node m pointers) (c ∷ cmd) = elim (del_msg_element (pointers (slot c)) cmd) [
  | none ↦ none
  | some child ↦ some (node m (update pointers (slot c) (keep child)))
]

-- The walk ends at the first character that is no letter, the NUL included.
unfoldable pub msg_tree_parse : MessageTree → List ℕ → Option ℕ
unfolding slot
msg_tree_parse null cmd = none
msg_tree_parse (node m pointers) [] = m
msg_tree_parse (node m pointers) (c ∷ cmd) =
    let onward = msg_tree_parse (pointers (slot c)) cmd in if is_alpha c then onward else none

-- Whether a text is read as a command: letters that lead to the same slots.
unfoldable pub is_read_as : List ℕ → List ℕ → Bool
unfolding slot
is_read_as [] [] = true
is_read_as [] (d ∷ text) = false
is_read_as (c ∷ cmd) [] = false
is_read_as (c ∷ cmd) (d ∷ text) =
    let onward = is_read_as cmd text in is_alpha d && slot c == slot d && onward

pub msg_tree_parse-add :
    (t : MessageTree) (msg : ℕ) (cmd text : List ℕ)
    → msg_tree_parse (add_msg_element t msg cmd) text
      ≡ (if is_read_as cmd text then some msg else msg_tree_parse t text)
unfolding msg_tree_parse add_msg_element is_read_as
msg_tree_parse-add null msg [] [] = refl
msg_tree_parse-add null msg [] (d ∷ text) = ground arith
msg_tree_parse-add null msg (c ∷ cmd) [] = refl
msg_tree_parse-add null msg (c ∷ cmd) (d ∷ text) =
    ground (arith, msg_tree_parse-add null msg cmd text)
msg_tree_parse-add (node m pointers) msg [] [] = refl
msg_tree_parse-add (node m pointers) msg [] (d ∷ text) = refl
msg_tree_parse-add (node m pointers) msg (c ∷ cmd) [] = refl
msg_tree_parse-add (node m pointers) msg (c ∷ cmd) (d ∷ text) =
    ground (arith, msg_tree_parse-add (pointers (slot c)) msg cmd text)

null-parse :
    (t : MessageTree) (text : List ℕ) → is_null_tree t ≡ true → msg_tree_parse t text ≡ none
unfolding is_null_tree msg_tree_parse
null-parse null text h = refl
null-parse (node m pointers) text h = cc

msg_tree_parse-keep :
    (t : MessageTree) (text : List ℕ) → msg_tree_parse (keep t) text ≡ msg_tree_parse t text
unfolding keep msg_tree_parse is_null_tree
msg_tree_parse-keep null text = refl
msg_tree_parse-keep (node none pointers) [] = ground arith
msg_tree_parse-keep (node (some m) pointers) [] = refl
msg_tree_parse-keep (node (some m) pointers) (d ∷ text) = refl
msg_tree_parse-keep (node none pointers) (d ∷ text) =
    elim (Bool-cases (all_below 32 (λ i. is_null_tree (pointers i)))) [
      | inr e ↦ rw e refl
      | inl e ↦
          let no_child : is_null_tree (pointers (slot d)) ≡ true =
            all_below_sound 32 (λ (i : ℕ). is_null_tree (pointers i)) (slot d) e (omega arith) in
          rw e (ground (arith, null-parse (pointers (slot d)) text))
    ]

below :
    (m : Option ℕ) (pointers : ℕ → MessageTree) (c : ℕ) (cmd text : List ℕ) (child : MessageTree)
    → ((rest : List ℕ)
        → msg_tree_parse child rest
          ≡ (if is_read_as cmd rest then none else msg_tree_parse (pointers (slot c)) rest))
    → msg_tree_parse (node m (update pointers (slot c) (keep child))) text
      ≡ (if is_read_as (c ∷ cmd) text then none else msg_tree_parse (node m pointers) text)
unfolding msg_tree_parse is_read_as
below m pointers c cmd [] child h = refl
below m pointers c cmd (d ∷ text) child h = ground (arith, h text, msg_tree_parse-keep child text)

pub msg_tree_parse-del :
    (t : MessageTree) (cmd text : List ℕ) (t' : MessageTree)
    → del_msg_element t cmd ≡ some t'
    → msg_tree_parse t' text ≡ (if is_read_as cmd text then none else msg_tree_parse t text)
unfolding msg_tree_parse del_msg_element is_read_as
msg_tree_parse-del null cmd text t' h = cc
msg_tree_parse-del (node m pointers) [] [] t' h = ground arith
msg_tree_parse-del (node m pointers) [] (d ∷ text) t' h = ground arith
msg_tree_parse-del (node m pointers) (c ∷ cmd) text t' h =
    elim (Option-cases (del_msg_element (pointers (slot c)) cmd)) [
      | inl e ↦ absurd (let no : none ≡ some t' = ground arith in cc)
      | inr (child, e) ↦
          let same : node m (update pointers (slot c) (keep child)) ≡ t' = ground arith in
          rw (← same) (
            below m pointers c cmd text child
              (λ rest. msg_tree_parse-del (pointers (slot c)) cmd rest child e))
    ]
