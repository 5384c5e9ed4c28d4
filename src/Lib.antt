-- ===== src/Lib.antt =====
-- The core of an IRC daemon.
--
-- The files and the parts of the program they model:
--   Chattr       ircd/table_gen.c, include/ircd_chattr.h: the character tables.
--   Mask         ircd/match.c: Match models `match` (Wild, Steps and Correct
--                are about its runs), Collapse models `collapse`, and Items says what a
--                mask means.
--   Dbuf         ircd/dbuf.c: the queues of bytes between a socket and the parser. Queue has the
--                well-formed queues and their bytes; Remove, Flush, Get and Line follow the operations.
--   Numnick      ircd/numnicks.c: Base64 is the encoding, Registry the table of servers and their
--                clients, Nicks the assignment of numerics, and Handshake what two servers tell each
--                other of them.
--   Crule        ircd/crule.c: connection rules. Parse models the parser and Eval the evaluation;
--                Accepted, Runs, Progress, Finishes and Ends are about them.
--   Ipcheck      ircd/IPcheck.c: the registry of IP addresses, which limits the connections of an
--                address. Connect models the clients that come and go, Expire the timer.
--   Whowas       ircd/whowas.c: the nick history. Index says what the hash chains have to hold;
--                Chains, Kept and Operations are about the operations, and Reached about the calls in
--                sequence. A `struct Whowas *` is a number.
--   Hash         ircd/hash.c: the tables in which clients, channels and monitors are looked up by name.
--                Content says what a table holds, Seek is the search, and History the calls in sequence.
--                Jupes models the table of nick jupes: Probe is the walk through it, Occupied counts its
--                slots, and Valid, Filled and Juped say what it answers.
--   Channel      ircd/channel.c, ircd/destruct_event.c: Operations models joins, departures, invitations
--                and the end of a channel. Linked says when the memberships are consistent; Join, Leave,
--                Removed, Part, Left and Quit follow the operations, History the calls in sequence; Find
--                is the search for a membership, Invites the invitations, Bans the search of bans, and Expire
--                the timer that destroys empty channels.
--   Parse        ircd/parse.c: Tree models the trees of commands and Registered the mappings of services;
--                Words splits a line into parameters, and Line reads the lines of clients and servers.
--   Monitor      ircd/monitor.c and the loops of ircd/m_monitor.c: who is told when a nick comes or goes.
--                Watches says which nicks a client watches, Linked when lists, table and counts agree;
--                Changes and Agrees follow the links, Find, Delete and Clean the operations, Told the
--                notifications, and History the calls in sequence.
--   Tea          ircd/ircd_tea.c: the cipher of passwords and hosts.
--   Base         the names that the library passes on, lemmas on lists, and Boolean tests.
--   Tests        runs on small inputs, and each theorem at one input.
--
-- The names are those of the source, in lower case with `_`. The parts use one another as in the source:
-- masks fold case by the tables, rules evaluate masks and collapse their arguments, queues end lines by
-- the tables, and the registry of IP addresses compares addresses by `ipmask_check` of ircd/match.c. The
-- search of bans matches masks, and a channel that ends leaves its hash table; monitors are
-- looked up in a table of ircd/hash.c.
--
-- Texts are lists of the values of unsigned characters without the NUL. A pointer to null is `none`, a
-- pointer into a text is what is left of it, and `struct Client *` is a number. Doubly linked lists are the
-- lists of their pointers. Mutable state is a record that an operation takes and returns. Unsigned
-- arithmetic wraps where the source can reach the bound.
--
-- Fuel: `match` has one walk of the mask for each position of the name, since every return to a star moves
-- on in the name. `dbuf_put` and `dbuf_get` have a round for each byte, since a round moves a byte or more.
-- `crule_parse` has five more than the rule has characters, since every token but the last takes a
-- character away. `whowas_realloc` has a round for each structure, since a round frees one. `search_slot`
-- tries NN_MAX_CLIENT slots, as the source does, and the loop of `set_yxx_capacity` doubles 16 at most as
-- often as 32 bits allow. A walk through the nick jupes tries each slot once. The loop
-- that removes zombies has a round for each member, the one that takes a user off all channels a round for
-- each of the user's channels, the timer of channels a round for each event, and the one that splits a
-- line a round for each character and one more.
--
-- Not modelled: sockets, the event loop, the resolver and the message handlers, which are input and
-- output; the allocation of memory; of the channels, their modes, the merging of bans and what is sent;
-- G-lines and the jupes of servers. `flush_connections` of ircd/send.c and `exit_client` of
-- ircd/s_misc.c, which reach all of these, are parameters of the definitions that call them, and so
-- are the values of features, the searches that the line parser makes, and the table `crc32hash` that
-- is shuffled at the start.
--
-- Where the source goes on with a pointer that no longer holds, the model stops: `dbuf_put` is `none`
-- after `flush_connections` has cleared the queue that is being filled, `whowas_clean` is `none` for the
-- head of the history, which `wwList.ww_list` goes on to point to, and `crule_parse` tells whether
-- `crule_free` goes through. A failed assertion is `none` too.
pub mod Base
pub mod Chattr
pub mod Mask
pub mod Dbuf
pub mod Numnick
pub mod Crule
pub mod Ipcheck
pub mod Whowas
pub mod Hash
pub mod Tea
pub mod Monitor
pub mod Parse
pub mod Channel
pub mod Tests
