-- ===== src/Channel/Bans.antt =====
-- ircd/channel.c: the search of a channel's bans and exceptions.
use irch.Base.{
  Bool, List, Option, [], arith, bit_and, drop, false, if◌then◌else◌, is_null, none, not, refl,
  some, take, ℕ, ◌&&◌, ◌++◌, ◌+◌, ◌==◌, ◌||◌, ◌∷◌, ◌≡◌,
}
use irch.Crule.Eval.{matches}
use irch.Ipcheck.{ipmask_check}

-- `struct Ban` without what only the lists of bans show.
pub record Ban : Type 0 where
  pub banstr : List ℕ
  pub nu_len : ℕ
  pub flags : ℕ
  pub address : List ℕ
  pub addrbits : ℕ

-- What `find_ban` computes of a client before the loop: `nu`, the host, `iphost`, the address and `sr`.
pub record Target : Type 0 where
  pub nu : List ℕ
  pub host : List ℕ
  pub iphost : List ℕ
  pub ip : List ℕ
  pub sr : Option (List ℕ)

-- The features and fields from which they are computed; `iphost` is the text of the address.
pub record Client : Type 0 where
  pub name : List ℕ
  pub username : List ℕ
  pub host : List ℕ
  pub realhost : List ℕ
  pub iphost : List ℕ
  pub ip : List ℕ
  pub account : List ℕ
  pub is_account : Bool
  pub has_hidden_host : Bool

-- `hidden_host` is FEAT_HIDDEN_HOST. NICKLEN + USERLEN + 1 characters fit into `nu`, and HOSTLEN - 1 are
-- written of `tmphost`.
unfoldable pub target_of : List ℕ → Client → Target
target_of hidden_host c = record {
  nu = take 26 (c.name ++ b'!' ∷ c.username);
  host = c.host;
  iphost = c.iphost;
  ip = c.ip;
  sr =
      if not c.is_account
      then none
      else if c.has_hidden_host
      then some c.realhost
      else some (take 62 (c.account ++ b'.' ∷ hidden_host));
}

-- BAN_IPMASK is 1 and BAN_EXCEPTION is 16.
unfoldable pub is_ipmask : Ban → Bool
is_ipmask b = not (bit_and b.flags 1 == 0)

unfoldable pub is_exception : Ban → Bool
is_exception b = not (bit_and b.flags 16 == 0)

unfoldable pub matches_sr : List ℕ → Option (List ℕ) → Bool
matches_sr hostmask none = false
matches_sr hostmask (some sr) = matches hostmask sr

-- The tests in the loop of `find_ban`: the part in front of the `@`, and the host behind it.
unfoldable pub is_hit : Target → Ban → Bool
is_hit t b =
    let hostmask = drop (b.nu_len + 1) b.banstr in
    matches (take b.nu_len b.banstr) t.nu
    && ((is_ipmask b && ipmask_check t.ip b.address b.addrbits)
        || matches hostmask t.host
        || matches hostmask t.iphost
        || matches_sr hostmask t.sr)

-- The loop of `find_ban`, with the ban that was found so far.
unfoldable pub find_loop : Target → Option Ban → List Ban → Option Ban
find_loop t found [] = found
find_loop t found (b ∷ bs) =
    let skipped = find_loop t found bs in
    let taken = find_loop t (some b) bs in
    if not (is_null found) && not (is_exception b)
    then skipped
    else if not (is_hit t b)
    then skipped
    else if is_exception b
    then none
    else taken

unfoldable pub find_ban : Target → List Ban → Option Ban
find_ban t banlist = find_loop t none banlist

-- Whether an exception of the list matches.
pub is_excepted : Target → List Ban → Bool
is_excepted t [] = false
is_excepted t (b ∷ bs) = (is_exception b && is_hit t b) || is_excepted t bs

-- The first ban of the list that matches and is no exception.
pub first_ban : Target → List Ban → Option Ban
first_ban t [] = none
first_ban t (b ∷ bs) =
    let onward = first_ban t bs in if not (is_exception b) && is_hit t b then some b else onward

or_first : Option Ban → Option Ban → Option Ban
or_first none o = o
or_first (some b) o = some b

find_loop-first :
    (t : Target) (found : Option Ban) (bs : List Ban)
    → find_loop t found bs ≡ (if is_excepted t bs then none else or_first found (first_ban t bs))
unfolding find_loop is_excepted first_ban or_first
find_loop-first t none [] = refl
find_loop-first t (some f) [] = refl
find_loop-first t none (b ∷ bs) =
    ground (arith, find_loop-first t none bs, find_loop-first t (some b) bs)
find_loop-first t (some f) (b ∷ bs) = ground (arith, find_loop-first t (some f) bs)

-- A client is banned exactly if a ban of the list matches and no exception of it does, wherever in the
-- list they stand; what is found is the first ban that matches.
pub find_ban-first_ban :
    (t : Target) (banlist : List Ban)
    → find_ban t banlist ≡ (if is_excepted t banlist then none else first_ban t banlist)
unfolding find_ban or_first
find_ban-first_ban t banlist = find_loop-first t none banlist
