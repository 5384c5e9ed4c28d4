-- ===== src/Numnick/Handshake.antt =====
-- ircd/numnicks.c: the numeric that one server announces is the one that its peer registers, and a
-- user that got a numeric is found under it.
use irch.Base.{
  Bool, List, ap, arith, drop-append, length-append, none, some, take-append, take_all, true,
  update, ℕ, ◌++◌, ◌<◌, ◌∙◌, ◌≡◌,
}
use irch.Numnick.Base64.{inttobase64}
use irch.Numnick.Base64.RoundTrip.{base64toint-inttobase64, length-inttobase64}
use irch.Numnick.Registry.{
  Net, Server, nn_max_server, nn_max_client, find_xn_server, find_n_user, client_slot, register,
  set_server_yxx, server_texts,
}
use irch.Numnick.Registry.Servers.{IsBounded, register-IsBounded}
use irch.Numnick.Nicks.{set_local_num_nick}
use irch.Numnick.Nicks.Reserve.{IsReserved, set_local_num_nick-success}

-- The text of a server's numeric and capacity, as it is sent to a peer.
pub announced : ℕ → ℕ → List ℕ
announced numeric mask = inttobase64 numeric 2 ++ inttobase64 mask 3

announced_texts :
    (s : Server) (numeric mask : ℕ)
    → server_texts s (announced numeric mask) ≡ (inttobase64 numeric 2, inttobase64 mask 3)
unfolding server_texts announced
announced_texts s numeric mask = rw (
  length-append,
  length-inttobase64 numeric 2,
  length-inttobase64 mask 3,
  take-append (inttobase64 numeric 2) (inttobase64 mask 3) 2 (length-inttobase64 numeric 2),
  drop-append (inttobase64 numeric 2) (inttobase64 mask 3) 2 (length-inttobase64 numeric 2),
  take_all (inttobase64 mask 3) 3 (length-inttobase64 mask 3),
)

find_announced :
    (net : Net) (numeric mask : ℕ)
    → numeric < nn_max_server
    → find_xn_server net (announced numeric mask) ≡ some (net.server_list numeric)
unfolding find_xn_server announced
find_announced net numeric mask lt = rw (
  take-append (inttobase64 numeric 2) (inttobase64 mask 3) 2 (length-inttobase64 numeric 2),
  base64toint-inttobase64 numeric 2 (omega arith) lt (omega arith),
)

-- A peer whose `server_list` is covered by `lastNNServer` and that is told a numeric and a mask
-- within their bounds in five characters registers the server under that numeric, with that mask
-- and an empty array, and finds it under the text.
pub set_server_yxx-announced :
    (net : Net) (server numeric mask : ℕ)
    → numeric < nn_max_server
    → mask < nn_max_client
    → IsBounded net
    → (after : Net) × (set_server_yxx net server (announced numeric mask) ≡ some after)
      × (find_xn_server after (announced numeric mask) ≡ some (some server))
      × ((after.server server).nn_mask ≡ mask)
      × ((i : ℕ) → (after.server server).client_list i ≡ none)
      × IsBounded after
unfolding set_server_yxx register
set_server_yxx-announced net server numeric mask lt room b =
    let own = inttobase64 numeric 2 in
    let capacity = inttobase64 mask 3 in
    let new : Server = record {
      yxx = own;
      nn_capacity = capacity;
      nn_mask = mask;
      client_list = λ _. none;
    } in
    let before : Net = record net { server = update net.server server new } in
    (
      register before numeric server,
      rw (
        announced_texts (net.server server) numeric mask,
        base64toint-inttobase64 mask 3 (omega arith) room (omega arith),
        base64toint-inttobase64 numeric 2 (omega arith) lt (omega arith),
      ),
      rw (find_announced (register before numeric server) numeric mask lt) (ground arith),
      ground arith,
      λ i. ground arith,
      register-IsBounded before numeric server (record { above = b.above }),
    )

find_n_user_at :
    (after : Net) (numeric nn me i : ℕ)
    → numeric < nn_max_server
    → after.server_list numeric ≡ some me
    → client_slot after me (inttobase64 nn 3) ≡ some i
    → find_n_user after (announced numeric nn) ≡ some ((after.server me).client_list i)
unfolding find_n_user announced
find_n_user_at after numeric nn me i lt here slot =
    rw
      (
        length-append,
        length-inttobase64 numeric 2,
        length-inttobase64 nn 3,
        find_announced after numeric nn lt,
        here,
        drop-append (inttobase64 numeric 2) (inttobase64 nn 3) 2 (length-inttobase64 numeric 2),
      )
      (rw slot)

found :
    (net : Net) (cptr numeric nn : ℕ) (after : Net)
    → numeric < nn_max_server
    → net.server_list numeric ≡ some net.me
    → IsReserved net cptr nn after
    → find_n_user after (inttobase64 numeric 2 ++ after.user_yxx cptr) ≡ some (some cptr)
unfolding announced
found net cptr numeric nn after lt here r = rw r.named (
    find_n_user_at after numeric nn net.me _ lt (rw r.registry here) (rw r.named at r.reached)
    ∙ ap some r.stored)

-- If `last_nn` is below NN_MAX_CLIENT and the server is registered under a numeric, a user that
-- `SetLocalNumNick` has placed is found under the numeric's two characters followed by the user's
-- own three.
pub find_n_user-set_local_num_nick :
    (ndebug : Bool) (net : Net) (cptr numeric : ℕ) (after : Net)
    → net.last_nn < nn_max_client
    → numeric < nn_max_server
    → net.server_list numeric ≡ some net.me
    → set_local_num_nick ndebug net cptr ≡ some (after, true)
    → find_n_user after (inttobase64 numeric 2 ++ after.user_yxx cptr) ≡ some (some cptr)
find_n_user-set_local_num_nick ndebug net cptr numeric after range lt here h =
    let (nn, r) = set_local_num_nick-success ndebug net cptr after range h in
    found net cptr numeric nn after lt here r
