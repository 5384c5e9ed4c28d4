-- ===== src/Ipcheck/Expire.antt =====
-- ircd/IPcheck.c: the periodic expiry. The lists of unused structures are not modelled.
pub mod Keeps
use irch.Base.{
  ==_iff, Bool, Bool-cases, List, Option, Option-cases, [], all_below, all_below_sound, ap, arith,
  bit_and, bit_or, bit_xor, codes, dec_lt, drop, drop-append, drop-append_split, drop_ge, false,
  get_elem?, get_elem?-set_ne, get_elem?-set_self, get_or, if◌then◌else◌, inl, inr, leb, leb→le,
  length, length-append, length-drop, length-map, length-replicate, length-set, length-take, ltb,
  ltb→lt, lt→ltb, map, min, none, not, refl, replicate, set, some, suc, sym, tail, take,
  take-append, take-append-drop, take-append_split, take_all, take_ge, tests, true, update,
  update_ne, update_self, zero, ℕ, ℕ_discrete, ◌%◌, ◌&&◌, ◌*◌, ◌++◌, ◌+◌, ◌-◌, ◌/◌, ◌<◌, ◌==◌, ◌^◌,
  ◌||◌, ◌↔◌, ◌∙◌, ◌∷◌, ◌≡◌, ◌≢◌, ◌≤◌, ◌⊎◌,
}
use irch.Ipcheck.{Target, Entry, Entry48, Registry, is_since}

-- ip_registry_expire_entry, for an entry without a client: what is left of it.
unfoldable pub ip_registry_expire_entry : ℕ → Entry → Option Entry
ip_registry_expire_entry current_time e =
    if is_since current_time e.last_connect 600
    then none
    else if is_since current_time e.last_connect 120
    then some (record e { target = none })
    else some e

unfoldable pub expire_chain : ℕ → List Entry → List Entry
expire_chain current_time [] = []
expire_chain current_time (e ∷ es) =
    let onward = expire_chain current_time es in
    if e.connected == 0
    then (elim (ip_registry_expire_entry current_time e) [ none ↦ onward | some e' ↦ e' ∷ onward ])
    else e ∷ onward

unfoldable pub expire_chain48 : ℕ → List Entry48 → List Entry48
expire_chain48 current_time [] = []
expire_chain48 current_time (e ∷ es) =
    let onward = expire_chain48 current_time es in
    if is_since current_time e.last_connect 600 then onward else e ∷ onward

unfoldable pub ip_registry_expire : ℕ → Registry → Registry
ip_registry_expire current_time r = record {
  table = λ i. expire_chain current_time (r.table i);
  table48 = λ i. expire_chain48 current_time (r.table48 i);
}
