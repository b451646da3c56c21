-- ===== src/Runtime/Uffd/Worker.antt =====
-- The end of the handler thread.
use lucet.Runtime.Error.{Error}
use lucet.Runtime.Limits.{Limits}
use lucet.Runtime.Userfault.{Userfault}
