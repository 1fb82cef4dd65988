-- ===== src/LongIdt/Gates.antt =====
-- The gates that `init` of the x86_64 table sets, read back by the getters.
use danaos.LongIdt.{Idt}
