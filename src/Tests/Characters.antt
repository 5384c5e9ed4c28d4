-- ===== src/Tests/Characters.antt =====
-- ircd/table_gen.c on some characters.
use irch.Base.{refl, ◌≡◌}
use irch.Chattr.{to_lower, to_upper}

q_lower : to_lower b'Q' ≡ b'q'
unfolding to_lower
q_lower = refl

-- The brackets are letters of nicks, so that they have case too.
bracket_upper : to_upper b'{' ≡ b'['
unfolding to_upper
bracket_upper = refl
