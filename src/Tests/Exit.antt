-- ===== src/Tests/Exit.antt =====
-- A process with one crash function, which gets a signal.
use konk.Base.{String}
use konk.Util.Context.{Process, new_context, crash_handler, cancel}

abbrev signalled : Process String
signalled = cancel (crash_handler "close" new_context)
