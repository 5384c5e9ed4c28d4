-- ===== src/Numnick/Registry/Servers.antt =====
-- ircd/numnicks.c: a server is found under the numeric that it was given, and the capacity that it
-- announces is read back by its peers.
use Prim.Native.Nat.{zero-le}
use native.Mathlib.Nat.{pow-suc, pow-le-pow_right}
use irch.Base.{
  Bool-cases, arith, dec_lt, false, inl, inr, ltb, ltb→lt, none, refl, some, suc, update, zero, ℕ,
  ◌%◌, ◌*◌, ◌+◌, ◌-◌, ◌<◌, ◌^◌, ◌≡◌, ◌≢◌, ◌≤◌, ◌⊎◌,
}
use irch.Numnick.Base64.{base64toint, inttobase64}
use irch.Numnick.Base64.RoundTrip.{base64toint-inttobase64, length-inttobase64}
use irch.Numnick.Registry.{
  Net, nn_max_server, nn_max_client, find_n_server, register, capacity_loop, store_capacity,
  set_yxx_capacity, set_yxx_server_name,
}

-- `lastNNServer` is above every index in use: the bound of the loops over `server_list`.
pub record IsBounded (net : Net) : Type 0 where
  pub above : (i : ℕ) → net.server_list i ≢ none → i < net.last_nn_server

pub register-IsBounded : (net : Net) (i c : ℕ) → IsBounded net → IsBounded (register net i c)
unfolding register
register-IsBounded net i c b = record { above = λ j h. ground (arith, b.above j) }

read_numeric :
    (numeric : ℕ) → numeric < nn_max_server → base64toint (inttobase64 numeric 2) ≡ some numeric
read_numeric numeric h = base64toint-inttobase64 numeric 2 (omega arith) (omega arith) (omega arith)

-- After `SetYXXServerName` with a numeric below NN_MAX_SERVER, the two characters of the numeric
-- lead to the server and those of every other numeric lead where they led; the server has the name,
-- and if `lastNNServer` covered `server_list` it still does.
pub set_yxx_server_name-find :
    (net : Net) (c numeric other : ℕ)
    → numeric < nn_max_server
    → other < nn_max_server
    → IsBounded net
    → (find_n_server (set_yxx_server_name net c numeric) (inttobase64 other 2)
        ≡ some (update net.server_list numeric (some c) other))
      × (((set_yxx_server_name net c numeric).server c).yxx ≡ inttobase64 numeric 2)
      × IsBounded (set_yxx_server_name net c numeric)
unfolding set_yxx_server_name find_n_server register
set_yxx_server_name-find net c numeric other lt lt' b = (
  rw (length-inttobase64, read_numeric other lt') (ground arith),
  ground arith,
  register-IsBounded _ numeric c (record { above = b.above }),
)

double_pow : (m k : ℕ) → m * 2 ^ suc k ≡ m * 2 * 2 ^ k
double_pow m k = let p : 2 ^ suc k ≡ 2 ^ k * 2 = pow-suc 2 k in rw p (omega arith)

least_case :
    (m k capacity : ℕ)
    → m < capacity
    → (k ≡ 0) ⊎ (m * 2 * 2 ^ k < 2 * capacity)
    → m * 2 ^ suc k < 2 * capacity
least_case m k capacity lt (inl e) = rw e (omega arith)
least_case m k capacity lt (inr h) = rw (double_pow m k) h

-- The loop of `SetYXXCapacity` stops at the first doubling of `m` that reaches the capacity.
capacity_loop_total :
    (f m capacity : ℕ)
    → 0 < m
    → capacity ≤ 2 ^ 31
    → capacity ≤ m * 2 ^ f
    → (k : ℕ) × (capacity_loop (suc f) m capacity ≡ some (m * 2 ^ k))
      × (capacity ≤ m * 2 ^ k)
      × ((k ≡ 0) ⊎ (m * 2 ^ k < 2 * capacity))
unfolding capacity_loop
capacity_loop_total zero m capacity pos small fits = (0, ground arith, omega arith, inl refl)
capacity_loop_total (suc f) m capacity pos small fits = elim (Bool-cases (ltb m capacity)) [
  | inr e ↦ (0, rw e (ground arith), ground arith, inl refl)
  | inl e ↦
      let lt = ltb→lt m capacity e in
      let p : m * 2 ^ suc f ≡ m * 2 * 2 ^ f = double_pow m f in
      let (k, run, enough, least) =
        capacity_loop_total f (m * 2) capacity (omega arith) small (omega arith) in
      let q : m * 2 ^ suc k ≡ m * 2 * 2 ^ k = double_pow m k in
      let wraps : m * 2 % 2 ^ 32 ≡ m * 2 = omega arith in
      (suc k, rw (e, wraps, q) run, omega arith, inr (least_case m k capacity lt least))
]

-- No capacity within NN_MAX_CLIENT is rounded beyond it.
rounded_within :
    (k capacity : ℕ)
    → capacity ≤ nn_max_client
    → (k ≡ 0) ⊎ (16 * 2 ^ k < 2 * capacity)
    → 16 * 2 ^ k ≤ nn_max_client
rounded_within k capacity h least = elim (dec_lt 14 k) [
  | yes p ↦
      let big : 2 ^ 15 ≤ 2 ^ k = pow-le-pow_right (omega arith) p in
      absurd (omega (arith, far k capacity h least big))
  | no p ↦
      let small : 2 ^ k ≤ 2 ^ 14 = pow-le-pow_right (omega arith) {j = 14} (omega arith) in
      omega arith
]
  where
    far :
        (k capacity : ℕ)
        → capacity ≤ nn_max_client
        → (k ≡ 0) ⊎ (16 * 2 ^ k < 2 * capacity)
        → 2 ^ 15 ≤ 2 ^ k
        → ⊥
    far k capacity h (inl e) big = let q : 2 ^ 15 ≤ 2 ^ 0 = rw e at big in omega arith
    far k capacity h (inr lt) big = omega arith

lt-false : (a b : ℕ) → b ≤ a → ltb a b ≡ false
lt-false a b h = ground arith

stored : Net → ℕ → ℕ → ℕ → Net
stored net c mask index =
    let s = net.server c in
    record net {
      server =
          update net.server c (record s {
            nn_capacity = inttobase64 mask 3;
            nn_mask = mask;
            client_list = λ _. none;
          });
      server_list = update net.server_list index (some c);
    }

store_capacity_lem :
    (net : Net) (c mask index : ℕ)
    → base64toint (net.server c).yxx ≡ some index
    → store_capacity net c mask ≡ some (stored net c mask index)
unfolding store_capacity stored
store_capacity_lem net c mask index e = rw e

-- A capacity within NN_MAX_CLIENT is accepted for a server with a name: the mask has room for it, a
-- peer reads the mask back from the text that is announced, the name leads to the server, and the
-- other servers stay as they were.
pub set_yxx_capacity-announces :
    (net : Net) (c capacity index : ℕ)
    → capacity ≤ nn_max_client
    → base64toint (net.server c).yxx ≡ some index
    → (after : Net) × (set_yxx_capacity net c capacity ≡ some after)
      × (capacity ≤ (after.server c).nn_mask + 1)
      × ((after.server c).nn_mask < nn_max_client)
      × (base64toint (after.server c).nn_capacity ≡ some (after.server c).nn_mask)
      × (after.server_list index ≡ some c)
      × ((s : ℕ) → after.server s ≡ update net.server c (after.server c) s)
unfolding set_yxx_capacity stored
set_yxx_capacity-announces net c capacity index h own =
    let (k, run, enough, least) =
      capacity_loop_total 29 16 capacity (omega arith) (omega arith) (omega arith) in
    let within = rounded_within k capacity h least in
    let pos : 1 ≤ 2 ^ k = pow-le-pow_right {n = 2} (omega arith) zero-le in
    let mask : ℕ = 16 * 2 ^ k - 1 in
    let word : base64toint (inttobase64 mask 3) ≡ some mask =
      base64toint-inttobase64 mask 3 (omega arith) (omega arith) (omega arith) in
    (
      stored net c mask index,
      rw (run, lt-false _ _ within) (store_capacity_lem net c mask index own),
      ground arith,
      ground arith,
      ground arith,
      ground arith,
      λ s. ground arith,
    )

-- A capacity above NN_MAX_CLIENT and not above 2 ^ 31 ends the daemon.
pub set_yxx_capacity-too_large :
    (net : Net) (c capacity : ℕ)
    → nn_max_client < capacity
    → capacity ≤ 2 ^ 31
    → set_yxx_capacity net c capacity ≡ none
unfolding set_yxx_capacity
set_yxx_capacity-too_large net c capacity h small =
    let (k, run, enough, least) =
      capacity_loop_total 29 16 capacity (omega arith) small (omega arith) in
    rw run (ground arith)
