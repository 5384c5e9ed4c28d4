-- ===== src/Numnick/Nicks/Reserve.antt =====
-- ircd/numnicks.c: `SetLocalNumNick` finds a free slot if there is one, and the user is found there.
use mathlib.Core.Path.{subst}
use irch.Base.{
  Bool, ap, false, ◌||◌, Bool-cases, Option, arith, bit_and, false, inl, inr, none, refl, some, suc,
  true, update_self, zero, ℕ, ◌%◌, ◌+◌, ◌-◌, ◌<◌, ◌≡◌, ◌≢◌,
}
use irch.Numnick.Base64.{inttobase64, base64toint}
use irch.Numnick.Base64.RoundTrip.{base64toint-inttobase64}
use irch.Numnick.Registry.{Net, nn_max_client, client_slot, set_client}
use irch.Numnick.Nicks.{is_free, next_nn, search_slot, reserve, local_num_nick, set_local_num_nick}

next_nn_lem : (nn : ℕ) → nn < nn_max_client → next_nn nn ≡ (nn + 1) % nn_max_client
unfolding next_nn
next_nn_lem nn h = ground arith

is_free-none : (o : Option ℕ) → is_free o ≡ true → o ≡ none
unfolding is_free
is_free-none none h = refl
is_free-none (some c) h = cc

not_both : (o : Option ℕ) → o ≡ none → is_free o ≡ false → ⊥
unfolding is_free
not_both none h k = cc
not_both (some c) h k = cc

module _ (client_list : ℕ → Option ℕ) (mask : ℕ) where
  -- A search that succeeds ends at a free slot, in range.
  search_slot-found :
      (left nn : ℕ)
      → nn < nn_max_client
      → (search_slot left client_list mask nn).found ≡ true
      → (client_list (bit_and (search_slot left client_list mask nn).nn mask) ≡ none)
        × ((search_slot left client_list mask nn).nn < nn_max_client)
  unfolding search_slot
  search_slot-found zero nn lt h = cc
  search_slot-found (suc left) nn lt h =
      let step = next_nn_lem nn lt in
      ground
        (arith, search_slot-found left (next_nn nn), is_free-none (client_list (bit_and nn mask)))

  -- One that fails has seen every slot from the start taken.
  search_slot-full :
      (left nn j : ℕ)
      → nn < nn_max_client
      → j < left
      → (search_slot left client_list mask nn).found ≡ false
      → is_free (client_list (bit_and ((nn + j) % nn_max_client) mask)) ≡ false
  unfolding search_slot
  search_slot-full zero nn j lt within h = elim within [ ]
  search_slot-full (suc left) nn zero lt within h =
      let same : (nn + 0) % nn_max_client ≡ nn = omega arith in rw same (ground arith)
  search_slot-full (suc left) nn (suc j) lt within h =
      let step = next_nn_lem nn lt in
      let same : (next_nn nn + j) % nn_max_client ≡ (nn + suc j) % nn_max_client = omega arith in
      rw (← same) (ground (arith, search_slot-full left (next_nn nn) j))

-- What a successful `SetLocalNumNick` has done, `nn` being the numeric that it gave.
pub record IsReserved (net : Net) (cptr nn : ℕ) (after : Net) : Type 0 where
  pub range : nn < nn_max_client
  pub free : (net.server net.me).client_list (bit_and nn (net.server net.me).nn_mask) ≡ none
  pub named : after.user_yxx cptr ≡ inttobase64 nn 3
  pub reached :
      client_slot after net.me (after.user_yxx cptr) ≡ some (bit_and nn (net.server net.me).nn_mask)
  pub stored :
      (after.server net.me).client_list (bit_and nn (net.server net.me).nn_mask) ≡ some cptr
  pub kept :
      (i : ℕ)
      → i ≢ bit_and nn (net.server net.me).nn_mask
      → (after.server net.me).client_list i ≡ (net.server net.me).client_list i
  pub same_me : after.me ≡ net.me
  pub registry : after.server_list ≡ net.server_list
  pub apart : (s : ℕ) → s ≢ net.me → after.server s ≡ net.server s

read_back : (nn : ℕ) → nn < nn_max_client → base64toint (inttobase64 nn 3) ≡ some nn
read_back nn lt = base64toint-inttobase64 nn 3 (omega arith) (omega arith) (omega arith)

reserve-IsReserved :
    (net : Net) (cptr nn : ℕ)
    → nn < nn_max_client
    → (net.server net.me).client_list (bit_and nn (net.server net.me).nn_mask) ≡ none
    → IsReserved net cptr nn (reserve net cptr nn)
unfolding reserve client_slot set_client
reserve-IsReserved net cptr nn lt free = record {
  range = lt;
  free = free;
  named = ground arith;
  reached = rw (update_self net.user_yxx cptr (inttobase64 nn 3), read_back nn lt) (ground arith);
  stored = ground arith;
  kept = λ i h. ground arith;
  same_me = refl;
  registry = refl;
  apart = λ s h. ground arith;
}

pub record IsFull (net : Net) : Type 0 where
  pub taken :
      (i : ℕ)
      → i < nn_max_client
      → is_free ((net.server net.me).client_list (bit_and i (net.server net.me).nn_mask)) ≡ false

search-IsFull :
    (net : Net)
    → net.last_nn < nn_max_client
    → (search_slot nn_max_client
        (net.server net.me).client_list
        (net.server net.me).nn_mask
        net.last_nn).found
      ≡ false
    → IsFull net
search-IsFull net lt h = record {
  taken = λ i within.
      let j : ℕ = (i + nn_max_client - net.last_nn) % nn_max_client in
      let back : (net.last_nn + j) % nn_max_client ≡ i = omega arith in
      rw back at (
        search_slot-full (net.server net.me).client_list (net.server net.me).nn_mask nn_max_client
          net.last_nn j lt (omega arith) h);
}

-- A success has placed the client in a slot that was free, and written nowhere else.
success-IsReserved :
    (net : Net) (cptr : ℕ)
    → net.last_nn < nn_max_client
    → (local_num_nick net cptr).1 ≡ true
    → (nn : ℕ) × IsReserved net cptr nn (local_num_nick net cptr).0
unfolding local_num_nick
success-IsReserved net cptr lt h =
    let s = net.server net.me in
    let r = search_slot nn_max_client s.client_list s.nn_mask net.last_nn in
    elim (Bool-cases r.found) [
      | inl e ↦
          let (empty, range) =
            search_slot-found s.client_list s.nn_mask nn_max_client net.last_nn lt e in
          rw e (r.nn, reserve-IsReserved net cptr r.nn range empty)
      | inr e ↦ absurd (ground arith)
    ]

local_num_nick-IsFull :
    (net : Net) (cptr : ℕ)
    → net.last_nn < nn_max_client
    → (local_num_nick net cptr).1 ≡ false
    → IsFull net
      × ((local_num_nick net cptr).0 ≡ record net { last_nn = (local_num_nick net cptr).0.last_nn })
unfolding local_num_nick
local_num_nick-IsFull net cptr lt h =
    let s = net.server net.me in
    elim (Bool-cases (search_slot nn_max_client s.client_list s.nn_mask net.last_nn).found) [
      | inl e ↦ ground arith
      | inr e ↦ (search-IsFull net lt e, rw e)
    ]

local_num_nick-IsReserved :
    (net : Net) (cptr i : ℕ)
    → net.last_nn < nn_max_client
    → i < nn_max_client
    → (net.server net.me).client_list (bit_and i (net.server net.me).nn_mask) ≡ none
    → ((local_num_nick net cptr).1 ≡ true)
      × ((nn : ℕ) × IsReserved net cptr nn (local_num_nick net cptr).0)
local_num_nick-IsReserved net cptr i lt within free =
    elim (Bool-cases (local_num_nick net cptr).1) [
      | inl e ↦ (e, success-IsReserved net cptr lt e)
      | inr e ↦
          let full = (local_num_nick-IsFull net cptr lt e).0.taken i within in
          absurd (not_both _ free full)
    ]

pub set_local_num_nick-success :
    (ndebug : Bool) (net : Net) (cptr : ℕ) (after : Net)
    → net.last_nn < nn_max_client
    → set_local_num_nick ndebug net cptr ≡ some (after, true)
    → (nn : ℕ) × IsReserved net cptr nn after
unfolding set_local_num_nick
set_local_num_nick-success ndebug net cptr after lt h =
    let r = local_num_nick net cptr in
    elim (Bool-cases (r.1 || ndebug)) [
      | inr e ↦ absurd (let fails = rw (set_local_num_nick, e) at h in cc)
      | inl e ↦
          let eq = rw (set_local_num_nick, e) at h in
          let same : r ≡ (after, true) = cc in
          let (nn, reserved) = success-IsReserved net cptr lt (ap (λ (p : Net × Bool). p.1) same) in
          (nn, subst (IsReserved net cptr nn) (ap (λ (p : Net × Bool). p.0) same) reserved)
    ]

-- With a free slot somewhere and `last_nn` below NN_MAX_CLIENT, `SetLocalNumNick` succeeds: it
-- takes a slot that was free, writes the client there and nowhere else, and the numeric it gives
-- the client leads back to the slot.
pub set_local_num_nick-IsReserved :
    (ndebug : Bool) (net : Net) (cptr i : ℕ)
    → net.last_nn < nn_max_client
    → i < nn_max_client
    → (net.server net.me).client_list (bit_and i (net.server net.me).nn_mask) ≡ none
    → (after : Net) × (set_local_num_nick ndebug net cptr ≡ some (after, true))
      × (nn : ℕ) × IsReserved net cptr nn after
unfolding set_local_num_nick local_num_nick
set_local_num_nick-IsReserved ndebug net cptr i lt within free =
    let (e, (nn, reserved)) = local_num_nick-IsReserved net cptr i lt within free in
    let after : Net = (local_num_nick net cptr).0 in
    (after, rw (set_local_num_nick, e) (ap (λ b. some (after, b)) e), nn, reserved)

-- What `SetLocalNumNick` may come to: a failed assertion, a success, or the C result 0.
abbrev pub IsOutcome : Bool → Net → Option (Net × Bool) → Type 0
IsOutcome ndebug net none = IsFull net × (ndebug ≡ false)
IsOutcome ndebug net (some (after, true)) = ¬ IsFull net
IsOutcome ndebug net (some (after, false)) =
    IsFull net × (ndebug ≡ true) × (after ≡ record net { last_nn = after.last_nn })

-- With `last_nn` below NN_MAX_CLIENT, `SetLocalNumNick` succeeds only if a slot is free. If every slot
-- is taken its assertion fails; where assertions are compiled out it returns 0 and has changed `last_nn`
-- alone.
pub set_local_num_nick-IsFull :
    (ndebug : Bool) (net : Net) (cptr : ℕ)
    → net.last_nn < nn_max_client
    → IsOutcome ndebug net (set_local_num_nick ndebug net cptr)
unfolding set_local_num_nick
set_local_num_nick-IsFull ndebug net cptr lt =
    let r = local_num_nick net cptr in
    elim (Bool-cases r.1) [
      | inl e ↦
          let (nn, reserved) = success-IsReserved net cptr lt e in
          rw (set_local_num_nick, e)
            (λ full. not_both _ reserved.free (full.taken nn reserved.range))
      | inr e ↦
          let (full, same) = local_num_nick-IsFull net cptr lt e in
          elim (Bool-cases ndebug) [
            | inl n ↦ rw (set_local_num_nick, e, n) (full, refl, same)
            | inr n ↦ rw (set_local_num_nick, e, n) (full, refl)
          ]
    ]
