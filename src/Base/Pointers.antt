-- ===== src/Base/Pointers.antt =====
-- Linked lists as the lists of their pointers.
use Prim.Native.Nat.{ℕ, suc}
use mathlib.Core.Path.{◌≡◌, refl, ◌∙◌}
use mathlib.Core.Logic.{◌≢◌, inl, inr}
use mathlib.Core.Bool.{Bool, true, false, not, ◌&&◌, ◌||◌}
use mathlib.Core.List.{List, [], ◌∷◌, ◌++◌}
use native.Mathlib.Omega.{arith}
use irch.Base.Tests.{◌==◌, if◌then◌else◌, Bool-cases}
use irch.Base.Lists.{length}

unfoldable pub contains : ℕ → List ℕ → Bool
contains i [] = false
contains i (j ∷ js) = i == j || contains i js

-- The first node that is `i` is unlinked.
unfoldable pub erase : ℕ → List ℕ → List ℕ
erase i [] = []
erase i (j ∷ js) = let onward = erase i js in if i == j then js else j ∷ onward

abbrev pub NoDup : List ℕ → Type 0
NoDup [] = Unit
NoDup (i ∷ is) = (contains i is ≡ false) × NoDup is

pub contains-cons : (i j : ℕ) (js : List ℕ) → contains i (j ∷ js) ≡ (i == j || contains i js)
unfolding contains
contains-cons i j js = refl

pub contains-erase_ne : (i j : ℕ) (js : List ℕ) → i ≢ j → contains i (erase j js) ≡ contains i js
unfolding contains erase
contains-erase_ne i j [] h = refl
contains-erase_ne i j (k ∷ js) h = ground (arith, contains-erase_ne i j js h)

pub contains-erase :
    (i j : ℕ) (js : List ℕ) → NoDup js → contains i (erase j js) ≡ (contains i js && not (i == j))
unfolding contains erase
contains-erase i j [] h = refl
contains-erase i j (k ∷ js) h = ground (arith, contains-erase i j js h.1)

pub erase-NoDup : (i : ℕ) (js : List ℕ) → NoDup js → NoDup (erase i js)
unfolding erase
erase-NoDup i [] h = tt
erase-NoDup i (j ∷ js) h = elim (Bool-cases (i == j)) [
  | inl e ↦ rw e h.1
  | inr e ↦
      let d : j ≢ i = ground arith in rw e (contains-erase_ne j i js d ∙ h.0, erase-NoDup i js h.1)
]

pub length-erase :
    (i : ℕ) (js : List ℕ) → contains i js ≡ true → length js ≡ suc (length (erase i js))
unfolding contains erase
length-erase i [] h = cc
length-erase i (j ∷ js) h = ground (arith, length-erase i js)

pub erase-of_absent : (i : ℕ) (js : List ℕ) → contains i js ≡ false → erase i js ≡ js
unfolding contains erase
erase-of_absent i [] h = refl
erase-of_absent i (j ∷ js) h = ground (arith, erase-of_absent i js)

pub contains-append :
    (i : ℕ) (is js : List ℕ) → contains i (is ++ js) ≡ (contains i is || contains i js)
unfolding contains
contains-append i [] js = refl
contains-append i (j ∷ is) js = ground (arith, contains-append i is js)

pub snoc-NoDup : (is : List ℕ) (i : ℕ) → NoDup is → contains i is ≡ false → NoDup (is ++ i ∷ [])
unfolding contains
snoc-NoDup [] i d h = (refl, tt)
snoc-NoDup (j ∷ is) i d h =
    (ground (arith, contains-append j is (i ∷ [])), snoc-NoDup is i d.1 (ground arith))
