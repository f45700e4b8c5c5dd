-- ===== src/MainLoop/Handover.antt =====
-- main_loop.rs: from a user's scheduler, by way of the kernel, to a task of another process.
use vsched.Config.{Config}
use vsched.Os.{Os}
use vsched.World.{World, Scheduler}
