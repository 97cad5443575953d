-- ===== src/Serving/Time/Agree.antt =====
-- The client and the server of example/simple/time.cpp together.
use xynet.Prelude.{List}
use xynet.Transfer.Send
use xynet.Transfer.Recv
use xynet.Socket.{Socket}
use xynet.Serving.Memory.{Memory}
