-- ===== src/Chattr.antt =====
-- ircd/table_gen.c: the character tables of the server, ISO 8859-1, which `ToLower` and the `Is...`
-- macros of include/ircd_chattr.h index. A table is a function of the character's code; a loop over
-- all characters that reads and writes its own entry only is written pointwise.
pub mod Case
use irch.Base.{
  ==_iff, Bool, Bool-cases, List, Option, Option-cases, [], all_below, all_below_sound, ap, arith,
  bit_and, bit_or, bit_xor, codes, dec_lt, drop, drop-append, false, get_elem?, get_elem?-set_ne,
  get_elem?-set_self, get_or, if◌then◌else◌, inl, inr, leb, leb→le, length, length-append,
  length-drop, length-map, length-replicate, length-set, length-take, ltb, ltb→lt, lt→ltb, map,
  none, not, refl, replicate, set, some, suc, sym, tail, take, take-append, take-append-drop,
  take_all, tests, true, update, update_ne, update_self, zero, ℕ, ℕ_discrete, ◌%◌, ◌&&◌, ◌*◌, ◌++◌,
  ◌+◌, ◌-◌, ◌/◌, ◌<◌, ◌==◌, ◌^◌, ◌||◌, ◌↔◌, ◌∙◌, ◌∷◌, ◌≡◌, ◌≢◌, ◌≤◌, ◌⊎◌,
}

pub record Tables : Type 0 where
  pub tolower : ℕ → ℕ
  pub toupper : ℕ → ℕ
  pub attrib : ℕ → ℕ

abbrev pub ntl_alnum : ℕ
ntl_alnum = 0x0001

abbrev pub ntl_alpha : ℕ
ntl_alpha = 0x0002

abbrev pub ntl_cntrl : ℕ
ntl_cntrl = 0x0004

abbrev pub ntl_digit : ℕ
ntl_digit = 0x0008

abbrev pub ntl_graph : ℕ
ntl_graph = 0x0010

abbrev pub ntl_lower : ℕ
ntl_lower = 0x0020

abbrev pub ntl_print : ℕ
ntl_print = 0x0040

abbrev pub ntl_punct : ℕ
ntl_punct = 0x0080

abbrev pub ntl_space : ℕ
ntl_space = 0x0100

abbrev pub ntl_upper : ℕ
ntl_upper = 0x0200

abbrev pub ntl_ircch : ℕ
ntl_ircch = 0x0400

abbrev pub ntl_irccl : ℕ
ntl_irccl = 0x0800

abbrev pub ntl_ircnk : ℕ
ntl_ircnk = 0x1000

abbrev pub ntl_ircui : ℕ
ntl_ircui = 0x2000

abbrev pub ntl_irchn : ℕ
ntl_irchn = 0x4000

abbrev pub ntl_ircip : ℕ
ntl_ircip = 0x8000

abbrev pub ntl_eol : ℕ
ntl_eol = 0x10000

abbrev pub ntl_ktime : ℕ
ntl_ktime = 0x20000

abbrev pub ntl_chpfx : ℕ
ntl_chpfx = 0x40000

abbrev pub ntl_ircip6 : ℕ
ntl_ircip6 = 0x80000

contains : List ℕ → ℕ → Bool
contains [] c = false
contains (d ∷ ds) c = c == d || contains ds c

in_range : ℕ → ℕ → ℕ → Bool
in_range from to c = leb from c && leb c to

zero_tables : Tables
zero_tables = record { tolower = λ c. c; toupper = λ c. c; attrib = λ c. 0 }

mark_string : ℕ → List ℕ → Tables → Tables
unfolding contains
mark_string macro s t = record t {
  attrib = λ c. if contains s c then bit_or (t.attrib c) macro else t.attrib c;
}

-- `&= ~macro`
unmark_string : ℕ → List ℕ → Tables → Tables
unfolding contains
unmark_string macro s t = record t {
  attrib = λ c. if contains s c then t.attrib c - bit_and (t.attrib c) macro else t.attrib c;
}

mark_range : ℕ → ℕ → ℕ → Tables → Tables
unfolding in_range
mark_range macro from to t = record t {
  attrib = λ c. if in_range from to c then bit_or (t.attrib c) macro else t.attrib c;
}

move_macro : ℕ → ℕ → Tables → Tables
move_macro from to t = record t {
  attrib = λ c. if bit_and (t.attrib c) from == 0 then t.attrib c else bit_or (t.attrib c) to;
}

-- For each `i` of the lower range and `j` its partner: `tolower[j] = i; toupper[i] = j`. All the
-- upper ranges lie `firstlow - firsthi` below.
set_low_hi : ℕ → ℕ → ℕ → Tables → Tables
unfolding in_range
set_low_hi firstlow lastlow firsthi t = record t {
  tolower = λ j.
      if in_range firsthi (lastlow - (firstlow - firsthi)) j
      then j + (firstlow - firsthi)
      else t.tolower j;
  toupper = λ i. if in_range firstlow lastlow i then i - (firstlow - firsthi) else t.toupper i;
}

-- The very elementary sets.
elementary : Tables → Tables
unfolding mark_range mark_string
elementary t0 =
    let t1 = mark_range ntl_lower b'a' b'z' t0 in
    let t2 = mark_string ntl_lower (codes "{|}~") t1 in
    let t3 = mark_range ntl_upper b'A' b'Z' t2 in
    let t4 = mark_string ntl_upper (codes "[\\]^") t3 in
    let t5 = mark_range ntl_digit b'0' b'9' t4 in
    let t6 = mark_range ntl_cntrl 0 31 t5 in
    let t7 = mark_string ntl_punct (codes "!\"#$%&'()*+,-./:;<=>?@_`") t6 in
    mark_string ntl_space (9 ∷ 10 ∷ 11 ∷ 12 ∷ 13 ∷ 32 ∷ []) t7

-- The derived sets, in the source's order.
derived : Tables → Tables
unfolding move_macro mark_string unmark_string mark_range
derived t0 =
    let t1 = move_macro (bit_or ntl_lower ntl_upper) ntl_alpha t0 in
    let t2 = move_macro (bit_or ntl_alpha ntl_digit) ntl_alnum t1 in
    let t3 = move_macro (bit_or ntl_alnum ntl_punct) ntl_graph t2 in
    let t4 = mark_string ntl_print (codes " ") (move_macro ntl_graph ntl_print t3) in
    let t5 = mark_range ntl_ircch 33 255 t4 in
    let t6 = unmark_string ntl_ircch (44 ∷ 160 ∷ []) t5 in
    let t7 = mark_range ntl_irccl 0xd8 0xde (mark_range ntl_irccl 0xc0 0xd6 t6) in
    let t8 = mark_string ntl_irchn (codes "-_.") (move_macro ntl_alnum ntl_irchn t7) in
    let t9 = mark_string ntl_ircip (codes ".") (move_macro ntl_digit ntl_ircip t8) in
    let ta = mark_string ntl_ircip6 (codes ":.ABCDEFabcdef") (move_macro ntl_digit ntl_ircip6 t9) in
    let tb =
      mark_string ntl_ircnk (codes "-_`") (move_macro (bit_or ntl_digit ntl_alpha) ntl_ircnk ta) in
    let tc = mark_range ntl_ircui 0xe0 0xf6 (move_macro ntl_alnum ntl_ircui tb) in
    let td = mark_range ntl_ircui 0xf8 0xfe tc in
    let te = mark_range ntl_ircui 0xd8 0xde (mark_range ntl_ircui 0xc0 0xd6 td) in
    let tf = mark_string ntl_ircui (codes ".-_^'`~") te in
    mark_string ntl_ktime (codes " ,-0123456789")
      (mark_string ntl_chpfx (codes "#&") (mark_string ntl_eol (10 ∷ 13 ∷ []) tf))

cases : Tables → Tables
unfolding set_low_hi
cases t =
    set_low_hi b'{' b'~' b'['
      (set_low_hi 0xf8 0xfe 0xd8 (set_low_hi 0xe0 0xf6 0xc0 (set_low_hi b'a' b'z' b'A' t)))

make_tables : Tables
unfolding zero_tables elementary derived cases
make_tables = cases (derived (elementary zero_tables))

unfoldable pub to_lower : ℕ → ℕ
unfolding make_tables
to_lower = make_tables.tolower

unfoldable pub to_upper : ℕ → ℕ
unfolding make_tables
to_upper = make_tables.toupper

has : ℕ → ℕ → Bool
unfolding make_tables
has macro c = not (bit_and (make_tables.attrib c) macro == 0)

unfoldable pub is_alpha : ℕ → Bool
unfolding has
is_alpha = has ntl_alpha

unfoldable pub is_alnum : ℕ → Bool
unfolding has
is_alnum = has ntl_alnum

unfoldable pub is_digit : ℕ → Bool
unfolding has
is_digit = has ntl_digit

unfoldable pub is_eol : ℕ → Bool
unfolding has
is_eol = has ntl_eol

unfoldable pub is_channel_char : ℕ → Bool
unfolding has
is_channel_char = has ntl_ircch

unfoldable pub is_nick_char : ℕ → Bool
unfolding has
is_nick_char = has ntl_ircnk

unfoldable pub is_user_char : ℕ → Bool
unfolding has
is_user_char = has ntl_ircui
