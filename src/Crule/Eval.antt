-- ===== src/Crule/Eval.antt =====
-- ircd/crule.c: the evaluation of a rule.
use irch.Base.{Bool, List, Option, [], false, if◌then◌else◌, none, not, some, true, ℕ, ◌&&◌, ◌∷◌}
use irch.Mask.Match.{Answer, match}
use irch.Crule.{Function, Node, null, unset, call, andor, negation}
use irch.Crule.Function.{connected, directcon, via, directop}

-- What the functions read of a client: `from` is the name of `cli_from`.
pub record Client : Type 0 where
  pub name : List ℕ
  pub from : List ℕ
  pub is_server : Bool
  pub is_me : Bool
  pub is_an_oper : Bool

-- GlobalClientList, and LocalClientArray up to HighestFd.
pub record Clients : Type 0 where
  pub global : List Client
  pub local : List (Option Client)

-- `!match(mask, name)`
unfoldable pub is_matched : Answer → Bool
is_matched Answer.matched = true
is_matched _ = false

unfoldable pub matches : List ℕ → List ℕ → Bool
matches mask name = is_matched (match mask name)

unfoldable pub any {ℓ} : {A : Type ℓ} → (A → Bool) → List A → Bool
any p [] = false
any p (x ∷ xs) = let onward = any p xs in if p x then true else onward

unfoldable pub local_server : List ℕ → Option Client → Bool
local_server mask none = false
local_server mask (some c) = c.is_server && matches mask c.name

unfoldable pub local_oper : Option Client → Bool
local_oper none = false
local_oper (some c) = c.is_an_oper

unfoldable pub crule_connected : Clients → List ℕ → Bool
crule_connected cs mask = any (λ c. c.is_server && not c.is_me && matches mask c.name) cs.global

unfoldable pub crule_directcon : Clients → List ℕ → Bool
crule_directcon cs mask = any (local_server mask) cs.local

unfoldable pub crule_via : Clients → List ℕ → List ℕ → Bool
crule_via cs near far =
    any (λ c. c.is_server && not c.is_me && matches far c.name && matches near c.from) cs.global

unfoldable pub crule_directop : Clients → Bool
crule_directop cs = any local_oper cs.local

-- A call of a function through `funcptr`; `none` is a read through a pointer that is not set.
unfoldable pub call_function : Clients → Function → List (List ℕ) → Option Bool
call_function cs connected (a ∷ _) = some (crule_connected cs a)
call_function cs directcon (a ∷ _) = some (crule_directcon cs a)
call_function cs via (a ∷ b ∷ _) = some (crule_via cs a b)
call_function cs directop _ = some (crule_directop cs)
call_function cs _ _ = none

-- crule_eval, crule__andor and crule__not: the right operand counts only where it is evaluated.
unfoldable pub crule_eval : Clients → Node → Option Bool
crule_eval cs null = none
crule_eval cs unset = none
crule_eval cs (call none args) = none
crule_eval cs (call (some f) args) = call_function cs f args
crule_eval cs (andor is_or a b) =
    let right = crule_eval cs b in
    elim (crule_eval cs a) [
      | none ↦ none
      | some result1 ↦
          if is_or
          then (if result1 then some true else right)
          else if result1
          then right
          else some false
    ]
crule_eval cs (negation a) = elim (crule_eval cs a) [ none ↦ none | some r ↦ some (not r) ]
