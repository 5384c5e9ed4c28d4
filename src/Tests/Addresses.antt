-- ===== src/Tests/Addresses.antt =====
-- ircd/IPcheck.c on some addresses.
use mathlib.Core.Option
use irch.Base.{[], arith, false, if◌then◌else◌, inl, none, refl, some, true, ◌+◌, ◌≡◌}
use irch.Ipcheck.{
  Addr, Entry, Registry, words, is_valid, ip_registry_find, canonicalize, ip_registry_add, find_in,
  hash, is_ipv4, is_since, now, is_hit, ipmask_check, prefix_bits,
}
use irch.Ipcheck.Expire.{ip_registry_expire}
use irch.Ipcheck.Expire.Keeps.{KeptIn, ip_registry_expire-find}
use irch.Ipcheck.Connect.{
  Config, check_known, check_entry, saturate, ip_registry_check_local, ip_registry_check_remote,
  Leaver, ip_registry_disconnect, ip_registry_count,
}
use irch.Ipcheck.Connect.Count.{Accounts, ip_registry_check_local-count}
use irch.Ipcheck.Connect.Leave.{ip_registry_check_remote-count, ip_registry_disconnect-check_local}

abbrev config : Config
config = record {
  clone_limit = 4;
  clone_period = 40;
  clone48_limit = 50;
  clone48_period = 10;
  clone_delay = 600;
  since_me = 1000;
}

-- 10.1.2.3
abbrev address : Addr
address = record { w0 = 0; w1 = 0; w2 = 0; w3 = 0; w4 = 0; w5 = 65535; w6 = 2561; w7 = 515 }

abbrev entry : Entry
entry = record {
  target = none;
  addr = record { w0 = 0x2002; w1 = 2561; w2 = 515; w3 = 0; w4 = 0; w5 = 0; w6 = 0; w7 = 0 };
  last_connect = 65000;
  connected = 2;
  attempts = 1;
}

abbrev registry : Registry
unfolding ip_registry_add
registry = ip_registry_add (record { table = λ i. []; table48 = λ i. [] }) entry

found : ip_registry_find registry address ≡ some entry
unfolding ip_registry_find ip_registry_add find_in hash canonicalize is_ipv4 is_hit ipmask_check
    words prefix_bits
found = refl

counted : ip_registry_count registry address ≡ 2
unfolding ip_registry_count ip_registry_find ip_registry_add find_in hash canonicalize is_ipv4
    is_hit ipmask_check words prefix_bits
counted = refl

address_valid : is_valid address ≡ true
unfolding is_valid
address_valid = refl

ip_registry_check_local-count_example :
    Accounts registry address (ip_registry_check_local config 70000 registry address)
ip_registry_check_local-count_example =
    ip_registry_check_local-count config 70000 registry address (omega (arith, counted))

ip_registry_check_remote-count_example :
    ip_registry_count (ip_registry_check_remote config 70000 registry address false).0 address ≡ (
      if (ip_registry_check_remote config 70000 registry address false).1
      then ip_registry_count registry address + 1
      else 0)
ip_registry_check_remote-count_example =
    ip_registry_check_remote-count config 70000 registry address false address_valid
      (omega (arith, counted))

abbrev leaver : Leaver
leaver = record {
  ip = address;
  my_connect = true;
  targets = [];
  nexttarget = 69000;
  firsttime = 68000;
}

local_accepted : (ip_registry_check_local config 70000 registry address).accepted ≡ true
unfolding ip_registry_check_local ip_registry_add is_ipv4 check_known ip_registry_find find_in hash
    canonicalize is_hit ipmask_check words prefix_bits check_entry saturate is_since now
local_accepted = refl

ip_registry_disconnect-check_local_example :
    Option.map
      (λ (r' : Registry). ip_registry_count r' address)
      (ip_registry_disconnect config 71000
        (ip_registry_check_local config 70000 registry address).registry
        leaver)
    ≡ some (ip_registry_count registry address)
ip_registry_disconnect-check_local_example =
    ip_registry_disconnect-check_local config 70000 71000 registry leaver address_valid
      (omega (arith, counted)) local_accepted

ip_registry_expire-find_example :
    KeptIn (ip_registry_find (ip_registry_expire 131071 registry) address) entry
ip_registry_expire-find_example =
    ip_registry_expire-find 131071 registry address entry found (inl (omega arith))

-- The address of eight words 65535 counts as valid, too.
all_ones_valid :
    is_valid (record {
      w0 = 65535;
      w1 = 65535;
      w2 = 65535;
      w3 = 65535;
      w4 = 65535;
      w5 = 65535;
      w6 = 65535;
      w7 = 65535;
    })
    ≡ true
unfolding is_valid
all_ones_valid = refl
