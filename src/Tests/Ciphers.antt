-- ===== src/Tests/Ciphers.antt =====
-- ircd/ircd_tea.c on one block.
use irch.Base.{arith, bit_xor, ℕ, ◌≡◌}
use irch.Tea.{ircd_tea, ircd_untea, ircd_untea-ircd_tea}

abbrev block : ℕ × ℕ
block = (0x01234567, 0x89ABCDEF)

abbrev key : ℕ × ℕ
key = (0xDEADBEEF, 42)

abbrev before : ℕ × ℕ
before = (1, 2)

ircd_untea-ircd_tea_example :
    ircd_untea (ircd_tea block key before) key ≡ (bit_xor 0x01234567 1, bit_xor 0x89ABCDEF 2)
ircd_untea-ircd_tea_example =
    ircd_untea-ircd_tea block key before (omega arith) (omega arith) (omega arith) (omega arith)
