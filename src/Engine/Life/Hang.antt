-- ===== src/Engine/Life/Hang.antt =====
-- PageSocketHandler::run with a client that has connected and sends nothing: `read_some` waits, and
-- the join of `stop_all` with it.
use yijinjing_lite.Engine.Life.{Life}
