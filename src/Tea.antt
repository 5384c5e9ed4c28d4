-- ===== src/Tea.antt =====
-- ircd/ircd_tea.c: the cipher of passwords and of the hosts that users hide behind.
use Prim.Native.Nat.{digits, differ, bit_xor-bitwise}
use irch.Base.{arith, bit_xor, suc, zero, ℕ, ◌%◌, ◌*◌, ◌+◌, ◌-◌, ◌/◌, ◌<◌, ◌^◌, ◌≡◌, refl, ◌∙◌}

-- `delta`, and `a` and `b` of the key; `c` and `d` are 0.
abbrev pub delta : ℕ
delta = 0x9E3779B9

-- `((w << 4) + p) ^ (w + sum) ^ ((w >> 5) + q)` in 32 bits
unfoldable pub mix : ℕ → ℕ → ℕ → ℕ → ℕ
mix w p q sum =
    bit_xor (bit_xor ((w * 16 + p) % 2 ^ 32) ((w + sum) % 2 ^ 32)) ((w / 32 + q) % 2 ^ 32)

-- `n` rounds from `sum` on: y and z.
unfoldable pub tea_loop : ℕ → ℕ → ℕ → ℕ → ℕ → ℕ → ℕ × ℕ
unfolding mix
tea_loop zero a b sum y z = (y, z)
tea_loop (suc n) a b sum y z =
    let sum' = (sum + delta) % 2 ^ 32 in
    let y' = (y + mix z a b sum') % 2 ^ 32 in
    let z' = (z + mix y' 0 0 sum') % 2 ^ 32 in tea_loop n a b sum' y' z'

-- `w - m` of unsigned ints
unfoldable pub minus : ℕ → ℕ → ℕ
minus w m = (w + 2 ^ 32 - m) % 2 ^ 32

unfoldable pub untea_loop : ℕ → ℕ → ℕ → ℕ → ℕ → ℕ → ℕ × ℕ
unfolding mix minus
untea_loop zero a b sum y z = (y, z)
untea_loop (suc n) a b sum y z =
    let z' = minus z (mix y 0 0 sum) in
    let y' = minus y (mix z' a b sum) in untea_loop n a b (minus sum delta) y' z'

-- The result is what the function stores in `x`.
unfoldable pub ircd_tea : ℕ × ℕ → ℕ × ℕ → ℕ × ℕ → ℕ × ℕ
ircd_tea v k x = tea_loop 32 k.0 k.1 0 (bit_xor v.0 x.0) (bit_xor v.1 x.1)

unfoldable pub ircd_untea : ℕ × ℕ → ℕ × ℕ → ℕ × ℕ
ircd_untea v k = untea_loop 32 k.0 k.1 0xC6EF3720 v.0 v.1

double : (k : ℕ) → 2 ^ suc k ≡ 2 ^ k * 2
double k = omega arith

differ_lt : (x y : ℕ) → x < 2 → y < 2 → differ x y < 2
differ_lt zero y p q = q
differ_lt (suc zero) zero p q = omega arith
differ_lt (suc zero) (suc y) p q = omega arith
differ_lt (suc (suc x)) y p q = absurd (omega arith)

digits_lt : (k n a b : ℕ) → a < 2 ^ k → b < 2 ^ k → digits (λ c. c) differ n a b < 2 ^ k
digits_lt zero zero a b p q = q
digits_lt zero (suc n) zero b p q = q
digits_lt zero (suc n) (suc a) b p q = absurd (omega arith)
digits_lt (suc k) zero a b p q = q
digits_lt (suc k) (suc n) zero b p q = q
digits_lt (suc k) (suc n) (suc a) b p q =
    let half =
      digits_lt k n (suc a / 2) (b / 2) (omega (arith, double k)) (omega (arith, double k)) in
    omega (arith, half, differ_lt (suc a % 2) (b % 2) (omega arith) (omega arith), double k)

-- The exclusive or of two words is a word.
xor-lt : (k a b : ℕ) → a < 2 ^ k → b < 2 ^ k → bit_xor a b < 2 ^ k
xor-lt k a b p q = rw (bit_xor-bitwise a b) (digits_lt k a a b p q)

minus-add : (w m : ℕ) → w < 2 ^ 32 → m < 2 ^ 32 → minus ((w + m) % 2 ^ 32) m ≡ w
unfolding minus
minus-add w m p q = omega arith

mix-lt : (w p q sum : ℕ) → mix w p q sum < 2 ^ 32
unfolding mix
mix-lt w p q sum =
    xor-lt 32 (bit_xor ((w * 16 + p) % 2 ^ 32) ((w + sum) % 2 ^ 32)) ((w / 32 + q) % 2 ^ 32)
      (xor-lt 32 ((w * 16 + p) % 2 ^ 32) ((w + sum) % 2 ^ 32) (omega arith) (omega arith))
      (omega arith)

-- The sum from which the rounds are undone.
sum_after : ℕ → ℕ → ℕ
sum_after n sum = (sum + n * delta) % 2 ^ 32

undo_round :
    (m a b sum y z : ℕ)
    → sum < 2 ^ 32
    → y < 2 ^ 32
    → z < 2 ^ 32
    → untea_loop
        (suc m)
        a
        b
        ((sum + delta) % 2 ^ 32)
        ((y + mix z a b ((sum + delta) % 2 ^ 32)) % 2 ^ 32)
        ((z + mix ((y + mix z a b ((sum + delta) % 2 ^ 32)) % 2 ^ 32) 0 0 ((sum + delta) % 2 ^ 32))
          % 2 ^ 32)
      ≡ untea_loop m a b sum y z
unfolding untea_loop
undo_round m a b sum y z s p q =
    let sum' : ℕ = (sum + delta) % 2 ^ 32 in
    let y' : ℕ = (y + mix z a b sum') % 2 ^ 32 in
    let old_z = minus-add z (mix y' 0 0 sum') q (mix-lt y' 0 0 sum') in
    let old_y = minus-add y (mix z a b sum') p (mix-lt z a b sum') in
    let old_sum = minus-add sum delta s (omega arith) in rw (old_z, old_y, old_sum) refl

undo :
    (n m a b sum y z : ℕ)
    → sum < 2 ^ 32
    → y < 2 ^ 32
    → z < 2 ^ 32
    → untea_loop (n + m) a b (sum_after n sum) (tea_loop n a b sum y z).0 (tea_loop n a b sum y z).1
      ≡ untea_loop m a b sum y z
unfolding tea_loop sum_after
undo zero m a b sum y z s p q =
    let e : (sum + 0 * delta) % 2 ^ 32 ≡ sum = omega arith in
    let f : zero + m ≡ m = omega arith in rw (e, f) refl
undo (suc n) m a b sum y z s p q =
    let sum' : ℕ = (sum + delta) % 2 ^ 32 in
    let y' : ℕ = (y + mix z a b sum') % 2 ^ 32 in
    let z' : ℕ = (z + mix y' 0 0 sum') % 2 ^ 32 in
    let e : (sum + suc n * delta) % 2 ^ 32 ≡ (sum' + n * delta) % 2 ^ 32 = omega arith in
    let f : suc n + m ≡ n + suc m = omega arith in
    let ih = undo n (suc m) a b sum' y' z' (omega arith) (omega arith) (omega arith) in
    rw (e, f) (ih ∙ undo_round m a b sum y z s p q)

no_round : (a b sum y z : ℕ) → untea_loop 0 a b sum y z ≡ (y, z)
unfolding untea_loop
no_round a b sum y z = refl

undone :
    (a b y z : ℕ)
    → y < 2 ^ 32
    → z < 2 ^ 32
    → untea_loop 32 a b 0xC6EF3720 (tea_loop 32 a b 0 y z).0 (tea_loop 32 a b 0 y z).1 ≡ (y, z)
unfolding sum_after
undone a b y z p q = undo 32 0 a b 0 y z (omega arith) p q ∙ no_round a b 0 y z

-- What `ircd_tea` makes of words, `ircd_untea` with the same key turns back into the exclusive or of the
-- block and of what was in `x`.
pub ircd_untea-ircd_tea :
    (v k x : ℕ × ℕ)
    → v.0 < 2 ^ 32
    → v.1 < 2 ^ 32
    → x.0 < 2 ^ 32
    → x.1 < 2 ^ 32
    → ircd_untea (ircd_tea v k x) k ≡ (bit_xor v.0 x.0, bit_xor v.1 x.1)
unfolding ircd_tea ircd_untea
ircd_untea-ircd_tea v k x p q r s =
    undone k.0 k.1 (bit_xor v.0 x.0) (bit_xor v.1 x.1) (xor-lt 32 v.0 x.0 p r)
      (xor-lt 32 v.1 x.1 q s)
