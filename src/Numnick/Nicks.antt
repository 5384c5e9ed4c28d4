-- ===== src/Numnick/Nicks.antt =====
-- ircd/numnicks.c: `SetRemoteNumNick` and `SetLocalNumNick`, which give a user a slot of its server.
pub mod Reserve
use irch.Base.{
  ℕ, zero, suc, ◌+◌, Bool, true, false, Option, none, some, List, [], ◌∷◌, ◌||◌, ◌==◌,
  if◌then◌else◌, length, get_or, drop, update, bit_and,
}
use irch.Numnick.Base64.{inttobase64}
use irch.Numnick.Registry.{Net, nn_max_client, client_slot, set_client, ◌>>=◌}

pub is_free : Option ℕ → Bool
is_free none = true
is_free (some c) = false

-- `if (++last_nn == NN_MAX_CLIENT) last_nn = 0;`
pub next_nn : ℕ → ℕ
next_nn nn = if nn + 1 == nn_max_client then 0 else nn + 1

-- The value of `last_nn` at the end, and whether its slot is free.
pub record Search : Type 0 where
  pub found : Bool
  pub nn : ℕ

-- The `while` loop of `SetLocalNumNick`. The first argument is NN_MAX_CLIENT - count, so that
-- `++count == NN_MAX_CLIENT` is the test of the last round. Where it succeeds the assertion behind it
-- fails, which `set_local_num_nick` says.
unfoldable pub search_slot : ℕ → (ℕ → Option ℕ) → ℕ → ℕ → Search
unfolding is_free next_nn
search_slot zero client_list mask nn = record { found = false; nn = nn }
search_slot (suc left) client_list mask nn =
    let onward = search_slot left client_list mask (next_nn nn) in
    if is_free (client_list (bit_and nn mask))
    then record { found = true; nn = nn }
    else if left == 0
    then record { found = false; nn = nn }
    else onward

-- The writes behind the loop.
unfoldable pub reserve : Net → ℕ → ℕ → Net
unfolding set_client next_nn
reserve net cptr nn =
    let taken = set_client net net.me (bit_and nn (net.server net.me).nn_mask) (some cptr) in
    record taken { user_yxx = update net.user_yxx cptr (inttobase64 nn 3); last_nn = next_nn nn }

-- The loop and what follows it, with the C result.
unfoldable pub local_num_nick : Net → ℕ → Net × Bool
local_num_nick net cptr =
    let me = net.server net.me in
    let r = search_slot nn_max_client me.client_list me.nn_mask net.last_nn in
    if r.found then (reserve net cptr r.nn, true) else (record net { last_nn = r.nn }, false)

-- SetLocalNumNick: `none` is the assertion that fails. If `ndebug`, assertions are compiled out, and the
-- C result is 0 there.
unfoldable pub set_local_num_nick : Bool → Net → ℕ → Option (Net × Bool)
set_local_num_nick ndebug net cptr =
    let r = local_num_nick net cptr in if r.1 || ndebug then some r else none

-- The last three characters of a five-character numeric, the last two of one with three.
unfoldable pub remote_yxx : List ℕ → List ℕ
remote_yxx yxx = if length yxx == 5 then drop 2 yxx else get_or yxx 1 0 ∷ get_or yxx 2 0 ∷ []

-- `exit_client` belongs to ircd/s_misc.c: what it does to the state when it removes the old client.
exit_old : (ℕ → Net → Net) → Option ℕ → Net → Net
exit_old exit_client none net = net
exit_old exit_client (some old) net = exit_client old net

unfoldable pub set_remote_num_nick : (ℕ → Net → Net) → Net → ℕ → List ℕ → Option Net
unfolding remote_yxx exit_old client_slot set_client
set_remote_num_nick exit_client net acptr yxx = do
  let own = remote_yxx yxx
  let server = net.user_server acptr
  let named = record net { user_yxx = update net.user_yxx acptr own }
  i ← client_slot named server own
  let cleared = exit_old exit_client ((named.server server).client_list i) named
  some (set_client cleared server i (some acptr))
