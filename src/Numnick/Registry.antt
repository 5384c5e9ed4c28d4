-- ===== src/Numnick/Registry.antt =====
-- ircd/numnicks.c: `server_list`, `lastNNServer`, and the `client_list` of every server. A
-- `struct Client *` is a number, null is `none`, and what the pointers lead to is a function of it.
-- `none` as the result of an operation is a read behind a string's NUL, or the exit of the daemon.
pub mod Servers
use irch.Base.{
  ℕ, zero, suc, ◌+◌, ◌-◌, ◌*◌, ◌%◌, ◌^◌, Bool, true, false, Option, none, some, List, [], ◌∷◌, ◌==◌,
  ltb, leb, if◌then◌else◌, length, get_or, take, drop, update, bit_and, tail,
}
use irch.Numnick.Base64.{value_of, base64toint, inttobase64}

-- NN_MAX_SERVER and NN_MAX_CLIENT
abbrev pub nn_max_server : ℕ
nn_max_server = 4096

abbrev pub nn_max_client : ℕ
nn_max_client = 262144

-- The fields of `struct Client` and of its `struct Server` that the file uses.
pub record Server : Type 0 where
  pub yxx : List ℕ
  pub nn_capacity : List ℕ
  pub nn_mask : ℕ
  pub client_list : ℕ → Option ℕ

pub record Net : Type 0 where
  pub me : ℕ
  pub server : ℕ → Server
  pub server_list : ℕ → Option ℕ
  pub last_nn_server : ℕ
  pub user_yxx : ℕ → List ℕ
  pub user_server : ℕ → ℕ
  -- `static unsigned int last_nn` of `SetLocalNumNick`
  pub last_nn : ℕ

infixl 5 ◌>>=◌
abbrev pub ◌>>=◌ {ℓ κ} : {A : Type ℓ} {B : Type κ} → Option A → (A → Option B) → Option B
none >>= f = none
some a >>= f = f a

-- The outer `none` is the fault, the inner one the null pointer.
unfoldable pub find_xn_server : Net → List ℕ → Option (Option ℕ)
find_xn_server net numeric = do i ← base64toint (take 2 numeric); some (net.server_list i)

unfoldable pub find_n_server : Net → List ℕ → Option (Option ℕ)
unfolding find_xn_server
find_n_server net numeric =
    if ltb (length numeric) 3
    then base64toint numeric >>= (λ i. some (net.server_list i))
    else if length numeric == 3
    then some (net.server_list (value_of (get_or numeric 0 0)))
    else find_xn_server net numeric

-- `cli_serv(server)->client_list[base64toint(yxx) & cli_serv(server)->nn_mask]`
unfoldable pub client_slot : Net → ℕ → List ℕ → Option ℕ
client_slot net server yxx = do i ← base64toint yxx; some (bit_and i (net.server server).nn_mask)

user_at : Net → Option ℕ → List ℕ → Option (Option ℕ)
user_at net none yxx = some none
user_at net (some server) yxx = do
  i ← client_slot net server yxx
  some ((net.server server).client_list i)

unfoldable pub find_n_user : Net → List ℕ → Option (Option ℕ)
unfolding user_at client_slot
find_n_user net yxx =
    if length yxx == 5
    then find_xn_server net yxx >>= (λ server. user_at net server (drop 2 yxx))
    else find_n_server net yxx >>= (λ server. user_at net server (drop 1 yxx))

-- `client_list[i] = client` in the array of `server`
unfoldable pub set_client : Net → ℕ → ℕ → Option ℕ → Net
set_client net server i client =
    let s = net.server server in
    record net {
      server = update net.server server (record s { client_list = update s.client_list i client });
    }

unfoldable pub remove_yxx_client : Net → ℕ → List ℕ → Option Net
unfolding set_client client_slot
remove_yxx_client net server [] = some net
remove_yxx_client net server (c ∷ yxx) = do
  i ← client_slot net server (c ∷ yxx)
  some (set_client net server i none)

-- `if (index >= lastNNServer) lastNNServer = index + 1; server_list[index] = server;`
unfoldable pub register : Net → ℕ → ℕ → Net
register net index server = record net {
  server_list = update net.server_list index (some server);
  last_nn_server = if leb net.last_nn_server index then index + 1 else net.last_nn_server;
}

-- The two texts that `SetServerYXX` stores. With a three-character numeric it writes the first
-- characters of buffers that keep the rest of what they held.
unfoldable pub server_texts : Server → List ℕ → List ℕ × List ℕ
server_texts s yxx =
    if length yxx == 5
    then (take 2 yxx, take 3 (drop 2 yxx))
    else (get_or yxx 0 0 ∷ tail s.yxx, get_or yxx 1 0 ∷ get_or yxx 2 0 ∷ drop 2 s.nn_capacity)

unfoldable pub set_server_yxx : Net → ℕ → List ℕ → Option Net
unfolding register server_texts
set_server_yxx net server yxx = do
  let (own, capacity) = server_texts (net.server server) yxx
  mask ← base64toint capacity
  index ← base64toint own
  let new : Server = record {
    yxx = own;
    nn_capacity = capacity;
    nn_mask = mask;
    client_list = λ _. none;
  }
  some (register (record net { server = update net.server server new }) index server)

-- `while (max_clients < capacity) max_clients <<= 1;` in 32 bits; `none` if the fuel runs out.
unfoldable pub capacity_loop : ℕ → ℕ → ℕ → Option ℕ
capacity_loop zero max_clients capacity = none
capacity_loop (suc fuel) max_clients capacity =
    let rest = capacity_loop fuel (max_clients * 2 % 2 ^ 32) capacity in
    if ltb max_clients capacity then rest else some max_clients

-- What `SetYXXCapacity` stores, with the mask for the number of clients.
unfoldable pub store_capacity : Net → ℕ → ℕ → Option Net
store_capacity net c mask = do
  let s = net.server c
  let new : Server = record s {
    nn_capacity = inttobase64 mask 3;
    nn_mask = mask;
    client_list = λ _. none;
  }
  index ← base64toint s.yxx
  some (record net {
    server = update net.server c new;
    server_list = update net.server_list index (some c);
  })

-- Thirty doublings of 16 pass every capacity up to 2 ^ 31; past that the source does not stop.
unfoldable pub set_yxx_capacity : Net → ℕ → ℕ → Option Net
set_yxx_capacity net c capacity = do
  max_clients ← capacity_loop 30 16 capacity
  if ltb nn_max_client max_clients then none else store_capacity net c (max_clients - 1)

unfoldable pub set_yxx_server_name : Net → ℕ → ℕ → Net
unfolding register
set_yxx_server_name net c numeric =
    let s = net.server c in
    register
      (record net { server = update net.server c (record s { yxx = inttobase64 numeric 2 }) })
      numeric c

-- `server_list[index] == server`
points_to : Option ℕ → ℕ → Bool
points_to none server = false
points_to (some c) server = c == server

unfoldable pub clear_server_yxx : Net → ℕ → Option Net
unfolding points_to
clear_server_yxx net server = do
  index ← base64toint (net.server server).yxx
  some (
      if points_to (net.server_list index) server
      then record net { server_list = update net.server_list index none }
      else net)
