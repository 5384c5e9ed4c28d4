-- ===== src/Tests/Nicks.antt =====
-- ircd/whowas.c on a small history.
use irch.Base.{ℕ, [], arith, codes, false, none, refl, some, true, ◌≡◌, ◌≤◌}
use mathlib.Core.Path.{subst}
use irch.Whowas.{
  Whowas, History, Client, link_history, add_history, whowas_alloc, whowas_realloc, off_history,
  first_recent, get_history, cleaned, released, unlink, whowas_free, is_head, realloc_loop, reclaim,
  ww_tail, whowas_clean,
}
use irch.Whowas.Index.{IsIndexed, with_hash}
use irch.Whowas.Reached.{Reach, Reach-get_history, added, off, resized, start}
use irch.Whowas.Operations.{Succeeds, add_history-IsIndexed}

abbrev client : Client
client = record {
  id = 5;
  name = codes "Run";
  username = codes "carlo";
  host = codes "example.org";
  realhost = codes "example.org";
  has_hidden_host = false;
  servername = codes "irc.example.org";
  info = codes "Carlo";
  away = none;
}

abbrev nobody : Whowas
nobody = record {
  hashv = 0;
  name = [];
  username = [];
  hostname = [];
  realhost = none;
  servername = [];
  realname = [];
  away = none;
  logoff = 0;
  online = none;
}

abbrev empty : History
empty = record {
  entries = λ i. nobody;
  ww_list = [];
  ww_alloc = 0;
  whowashash = λ v. [];
  cli_whowas = λ c. [];
  fresh = 0;
}

empty-IsIndexed : IsIndexed empty
unfolding with_hash
empty-IsIndexed = record {
  chains = λ v. refl;
  hashed = tt;
  known = tt;
  distinct = tt;
  counted = refl;
}

abbrev one : History
unfolding link_history
one = link_history (record empty { ww_alloc = 1; fresh = 1 }) 0 1000 client true

one_added : add_history 800 1000 empty client true ≡ some one
unfolding add_history whowas_alloc link_history one
one_added = refl

abbrev two : History
unfolding link_history one
two = link_history (record one { ww_alloc = 2; fresh = 2 }) 1 1010 client false

two_added : add_history 800 1010 one client false ≡ some two
unfolding add_history whowas_alloc link_history one two
two_added = refl

-- What `add_history` has to keep.
abbrev Kept : ℕ → History → Type 0
Kept max h = IsIndexed h × (h.ww_alloc ≤ max)

one-IsIndexed : IsIndexed one
one-IsIndexed =
    (subst (Succeeds (Kept 800)) one_added (
      add_history-IsIndexed 800 1000 empty client true (omega arith) (omega arith)
        empty-IsIndexed)).0

two-IsIndexed : IsIndexed two
unfolding one
two-IsIndexed =
    (subst (Succeeds (Kept 800)) two_added
      (add_history-IsIndexed 800 1010 one client false (omega arith) (omega arith) one-IsIndexed)).0

-- The history is full: the oldest structure is used again.
add_history-IsIndexed_example :
    Succeeds (λ h'. IsIndexed h' × (h'.ww_alloc ≤ 2)) (add_history 2 1060 two client true)
unfolding two
add_history-IsIndexed_example =
    add_history-IsIndexed 2 1060 two client true (omega arith) (omega arith) two-IsIndexed

-- In a history of length 1 the head is left behind.
short_history : add_history 1 1060 one client true ≡ none
unfolding add_history whowas_alloc reclaim whowas_clean ww_tail is_head one link_history
short_history = refl

abbrev three : History
unfolding link_history two
three = link_history (record two { ww_alloc = 3; fresh = 3 }) 2 1020 client true

three_added : add_history 800 1020 two client true ≡ some three
unfolding add_history whowas_alloc link_history two three
three_added = refl

-- The client quits, and the history is made shorter: the oldest structure goes.
abbrev later : History
later = off_history three 5

abbrev shorter : History
shorter = released (cleaned later 0)

shortened : whowas_realloc 2 later ≡ some shorter
unfolding whowas_realloc realloc_loop whowas_free whowas_clean is_head ww_tail off_history released
    cleaned unlink link_history one two three
shortened = refl

shorter-Reach : Reach 2 shorter
shorter-Reach =
    resized 2 (omega arith)
      (off 5 (
        added 1020 client true
          (added 1010 client false
            (added 1000 client true (start 800 (λ i. nobody) (omega arith)) one_added) two_added)
          three_added))
      shortened

Reach-get_history_example :
    (get_history 1050 90 shorter (codes "RUN")
      ≡ first_recent 1050 90 (codes "RUN") shorter.entries shorter.ww_list)
    × (shorter.ww_alloc ≤ 2)
Reach-get_history_example = Reach-get_history 1050 90 (codes "RUN") shorter-Reach
