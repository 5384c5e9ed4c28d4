-- ===== src/Tests/Numerics.antt =====
-- ircd/numnicks.c on a small network.
use irch.Base.{
  true, false, [], arith, codes, false, if◌then◌else◌, none, refl, some, true, update, ℕ, ◌++◌, ◌+◌,
  ◌<◌, ◌==◌, ◌≡◌, ◌≤◌,
}
use irch.Numnick.Base64.{base64toint, inttobase64, is_digit}
use irch.Numnick.Base64.RoundTrip.{AllDigits, base64toint-inttobase64}
use irch.Numnick.Registry.{
  Net, nn_max_client, find_xn_server, find_n_server, find_n_user, set_server_yxx, set_yxx_capacity,
  set_yxx_server_name,
}
use irch.Numnick.Registry.Servers.{
  IsBounded, set_yxx_server_name-find, set_yxx_capacity-announces, set_yxx_capacity-too_large,
}
use irch.Numnick.Nicks.{set_local_num_nick}
use irch.Numnick.Nicks.Reserve.{
  IsReserved, IsOutcome, set_local_num_nick-IsReserved, set_local_num_nick-IsFull,
}
use irch.Numnick.Handshake.{announced, set_server_yxx-announced, find_n_user-set_local_num_nick}

base64toint-inttobase64_example : base64toint (inttobase64 4095 2) ≡ some 4095
base64toint-inttobase64_example =
    base64toint-inttobase64 4095 2 (omega arith) (omega arith) (omega arith)

digits : AllDigits (codes "]A9")
unfolding is_digit
digits = (omega arith, refl, (omega arith, refl, (omega arith, refl, tt)))

read : base64toint (codes "]A9") ≡ some 258109
unfolding base64toint
read = refl

-- The server 0 has the numeric 1.
abbrev net : Net
net = record {
  me = 0;
  server = λ s. record {
    yxx = codes "AB";
    nn_capacity = codes "AAP";
    nn_mask = 15;
    client_list = λ i. none;
  };
  server_list = λ i. if i == 1 then some 0 else none;
  last_nn_server = 2;
  user_yxx = λ c. [];
  user_server = λ c. 0;
  last_nn = 5;
}

net-IsBounded : IsBounded net
net-IsBounded = record { above = λ i h. ground arith }

own_numeric : base64toint (codes "AB") ≡ some 1
unfolding base64toint
own_numeric = refl

set_yxx_server_name-find_example :
    (find_n_server (set_yxx_server_name net 7 66) (inttobase64 1 2)
      ≡ some (update net.server_list 66 (some 7) 1))
    × (((set_yxx_server_name net 7 66).server 7).yxx ≡ inttobase64 66 2)
    × IsBounded (set_yxx_server_name net 7 66)
set_yxx_server_name-find_example =
    set_yxx_server_name-find net 7 66 1 (omega arith) (omega arith) net-IsBounded

set_yxx_capacity-announces_example :
    (after : Net) × (set_yxx_capacity net 0 1000 ≡ some after)
    × (1000 ≤ (after.server 0).nn_mask + 1)
    × ((after.server 0).nn_mask < nn_max_client)
    × (base64toint (after.server 0).nn_capacity ≡ some (after.server 0).nn_mask)
    × (after.server_list 1 ≡ some 0)
    × ((s : ℕ) → after.server s ≡ update net.server 0 (after.server 0) s)
set_yxx_capacity-announces_example =
    set_yxx_capacity-announces net 0 1000 1 (omega arith) own_numeric

capacity_too_large : set_yxx_capacity net 0 300000 ≡ none
capacity_too_large = set_yxx_capacity-too_large net 0 300000 (omega arith) (omega arith)

set_local_num_nick-IsReserved_example :
    (after : Net) × (set_local_num_nick false net 3 ≡ some (after, true))
    × (nn : ℕ) × IsReserved net 3 nn after
set_local_num_nick-IsReserved_example =
    set_local_num_nick-IsReserved false net 3 0 (omega arith) (omega arith) refl

abbrev placed_net : Net
placed_net = (set_local_num_nick-IsReserved false net 3 0 (omega arith) (omega arith) refl).0

placed : set_local_num_nick false net 3 ≡ some (placed_net, true)
placed = (set_local_num_nick-IsReserved false net 3 0 (omega arith) (omega arith) refl).1

find_n_user-set_local_num_nick_example :
    find_n_user placed_net (inttobase64 1 2 ++ placed_net.user_yxx 3) ≡ some (some 3)
find_n_user-set_local_num_nick_example =
    find_n_user-set_local_num_nick false net 3 1 placed_net (omega arith) (omega arith) refl placed

set_server_yxx-announced_example :
    (after : Net) × (set_server_yxx net 4 (announced 70 1023) ≡ some after)
    × (find_xn_server after (announced 70 1023) ≡ some (some 4))
    × ((after.server 4).nn_mask ≡ 1023)
    × ((i : ℕ) → (after.server 4).client_list i ≡ none)
    × IsBounded after
set_server_yxx-announced_example =
    set_server_yxx-announced net 4 70 1023 (omega arith) (omega arith) net-IsBounded

-- Every slot is taken.
abbrev full : Net
full = record net {
  server = λ s. record {
    yxx = codes "AB";
    nn_capacity = codes "AAP";
    nn_mask = 15;
    client_list = λ i. some 7;
  };
}

set_local_num_nick-IsFull_example : IsOutcome false full (set_local_num_nick false full 9)
set_local_num_nick-IsFull_example = set_local_num_nick-IsFull false full 9 (omega arith)
