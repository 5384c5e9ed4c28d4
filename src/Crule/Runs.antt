-- ===== src/Crule/Runs.antt =====
-- ircd/crule.c: an accepted rule can be evaluated.
use irch.Base.{
  Bool, Bool-cases, List, [], arith, false, inl, inr, length, none, not, refl, some, true, ℕ, ◌&&◌,
  ◌||◌, ◌∷◌, ◌≡◌,
}
use irch.Crule.{
  Function, Node, null, unset, call, andor, negation, reqnumargs, connected, directcon, via,
  directop,
}
use irch.Crule.Parse.{is_noerr, is_null, crule_parse}
use irch.Crule.Eval.{
  Clients, crule_connected, crule_directcon, crule_via, crule_directop, call_function, crule_eval,
}
use irch.Crule.Accepted.{well_formed, crule_parse-well_formed}

-- No operand is missing.
unfoldable pub has_operands : Node → Bool
has_operands null = false
has_operands unset = false
has_operands (call f args) = true
has_operands (andor is_or a b) = has_operands a && has_operands b
has_operands (negation a) = has_operands a

-- The truth of a function and of a rule, as a formula of propositional logic.
unfoldable pub function_holds : Clients → Function → List (List ℕ) → Bool
function_holds cs connected (a ∷ []) = crule_connected cs a
function_holds cs directcon (a ∷ []) = crule_directcon cs a
function_holds cs via (a ∷ b ∷ []) = crule_via cs a b
function_holds cs directop [] = crule_directop cs
function_holds cs _ _ = false

unfoldable pub holds : Clients → Node → Bool
holds cs null = false
holds cs unset = false
holds cs (call none args) = false
holds cs (call (some f) args) = function_holds cs f args
holds cs (andor true a b) = holds cs a || holds cs b
holds cs (andor false a b) = holds cs a && holds cs b
holds cs (negation a) = not (holds cs a)

call_runs :
    (cs : Clients) (f : Function) (args : List (List ℕ))
    → reqnumargs f ≡ length args
    → call_function cs f args ≡ some (function_holds cs f args)
unfolding call_function function_holds reqnumargs
call_runs cs connected [] h = absurd (omega arith)
call_runs cs connected (a ∷ []) h = refl
call_runs cs connected (a ∷ b ∷ c) h = absurd (omega arith)
call_runs cs directcon [] h = absurd (omega arith)
call_runs cs directcon (a ∷ []) h = refl
call_runs cs directcon (a ∷ b ∷ c) h = absurd (omega arith)
call_runs cs via [] h = absurd (omega arith)
call_runs cs via (a ∷ []) h = absurd (omega arith)
call_runs cs via (a ∷ b ∷ []) h = refl
call_runs cs via (a ∷ b ∷ c ∷ d) h = absurd (omega arith)
call_runs cs directop [] h = refl
call_runs cs directop (a ∷ b) h = absurd (omega arith)

and_elim : (a b : Bool) → (a && b) ≡ true → (a ≡ true) × (b ≡ true)
and_elim true b h = (refl, h)
and_elim false b h = cc

crule_eval-holds :
    (cs : Clients) (n : Node)
    → well_formed n ≡ true
    → has_operands n ≡ true
    → crule_eval cs n ≡ some (holds cs n)
unfolding crule_eval holds well_formed has_operands
crule_eval-holds cs null w h = cc
crule_eval-holds cs unset w h = cc
crule_eval-holds cs (call none args) w h = cc
crule_eval-holds cs (call (some f) args) w h = call_runs cs f args (ground arith)
crule_eval-holds cs (andor true a b) w h =
    let (wa, wb) = and_elim (well_formed a) (well_formed b) w in
    let (ha, hb) = and_elim (has_operands a) (has_operands b) h in
    let ra = crule_eval-holds cs a wa ha in
    let rb = crule_eval-holds cs b wb hb in
    elim (Bool-cases (holds cs a)) [ inl e ↦ rw (ra, e) refl | inr e ↦ rw (ra, e) rb ]
crule_eval-holds cs (andor false a b) w h =
    let (wa, wb) = and_elim (well_formed a) (well_formed b) w in
    let (ha, hb) = and_elim (has_operands a) (has_operands b) h in
    let ra = crule_eval-holds cs a wa ha in
    let rb = crule_eval-holds cs b wb hb in
    elim (Bool-cases (holds cs a)) [ inl e ↦ rw (ra, e) rb | inr e ↦ rw (ra, e) refl ]
crule_eval-holds cs (negation a) w h =
    let (_, wa) = and_elim (not (is_null a)) (well_formed a) w in
    let ra = crule_eval-holds cs a wa h in rw ra refl

-- A rule that is accepted and lacks no operand evaluates without a read through a pointer that is
-- not set, and its value is its truth as a formula.
pub crule_parse-runs :
    (cs : Clients) (rule : List ℕ)
    → is_noerr (crule_parse rule).0 ≡ true
    → has_operands (crule_parse rule).1 ≡ true
    → crule_eval cs (crule_parse rule).1 ≡ some (holds cs (crule_parse rule).1)
crule_parse-runs cs rule h k =
    crule_eval-holds cs (crule_parse rule).1 (crule_parse-well_formed rule h).0 k
