-- ===== src/Tests/Buffers.antt =====
-- ircd/dbuf.c on small queues.
use irch.Base.{[], arith, codes, false, refl, some, true, ◌∷◌, ◌≡◌}
use irch.Dbuf.{Dbuf, Pool, Config, dbuf_put, dbuf_get, dbuf_getmsg}
use irch.Dbuf.Queue.{bytes_of, contents, IsPut, IsValid, dbuf_put-contents, dbuf_put-room}
use irch.Dbuf.Get.{IsRead, dbuf_get-contents}
use irch.Dbuf.Line.{read_line, dbuf_getmsg-read_line}

abbrev config : Config
config = record { bufferpool = 10000; ferguson_flusher = true; flush_connections = λ p. (p, false) }

abbrev pool : Pool
pool = record { alloc_count = 3; used_count = 2; free = 1 }

-- "\r\nNICK a\r\nPING" in two buffers
abbrev queue : Dbuf
queue = record {
  length = 14;
  chain =
      record { offset = 2041; bytes = 13 ∷ 10 ∷ codes "NICK " }
      ∷ record { offset = 0; bytes = b'a' ∷ 13 ∷ 10 ∷ codes "PING" }
      ∷ [];
}

queue-IsValid : IsValid queue
unfolding contents bytes_of
queue-IsValid = record {
  counted = refl;
  fit = (omega arith, omega arith, (omega arith, omega arith, tt));
  word = omega arith;
}

dbuf_put-contents_example :
    IsPut config queue (codes " :x") (dbuf_put config pool queue (codes " :x"))
dbuf_put-contents_example =
    dbuf_put-contents config pool queue (codes " :x") queue-IsValid (omega arith)

dbuf_put-room_example :
    (pool' : Pool) × (after : Dbuf) × (dbuf_put config pool queue (codes " :x")
      ≡ some (pool', after, true))
dbuf_put-room_example = dbuf_put-room config pool queue (codes " :x") (omega arith)

dbuf_get-contents_example : IsRead queue 9 (dbuf_get 9 pool queue 9).1 (dbuf_get 9 pool queue 9).2
dbuf_get-contents_example = dbuf_get-contents 9 pool queue 9 queue-IsValid (omega arith)

dbuf_getmsg-read_line_example :
    ((contents (dbuf_getmsg pool queue 512).1, (dbuf_getmsg pool queue 512).2)
      ≡ read_line (contents queue) 512)
    × IsValid (dbuf_getmsg pool queue 512).1
dbuf_getmsg-read_line_example = dbuf_getmsg-read_line pool queue 512 queue-IsValid
