-- ===== src/EngineProto/Op.antt =====
-- internal/engineproto/proto.go: the names of the ops.
use stugan.Base.{Bytes, codes}

abbrev pub hello : Bytes
hello = codes "hello"

abbrev pub ping : Bytes
ping = codes "ping"

abbrev pub pong : Bytes
pong = codes "pong"

abbrev pub connect : Bytes
connect = codes "connect"

abbrev pub write : Bytes
write = codes "write"

abbrev pub ack : Bytes
ack = codes "ack"

abbrev pub detach : Bytes
detach = codes "detach"

abbrev pub close : Bytes
close = codes "close"

abbrev pub opened : Bytes
opened = codes "open"

abbrev pub attached : Bytes
attached = codes "attached"

abbrev pub line : Bytes
line = codes "line"

abbrev pub detached : Bytes
detached = codes "detached"

abbrev pub closed : Bytes
closed = codes "closed"

abbrev pub error : Bytes
error = codes "error"

abbrev pub health : Bytes
health = codes "health"
