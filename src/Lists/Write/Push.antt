-- ===== src/Lists/Write/Push.antt =====
-- LPUSH and RPUSH put values in front of a list and behind it.
use zan_redis_db.Bytes.{Bytes}
use zan_redis_db.Engine.{Engine}
