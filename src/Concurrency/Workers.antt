-- ===== src/Concurrency/Workers.antt =====
-- Two runs of one source, in one worker and in two. The semaphores are those of one process, and the
-- rows are those of the database that the workers share.
use null.Errors.{◌>>=◌}
