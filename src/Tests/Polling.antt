-- ===== src/Tests/Polling.antt =====
-- A preemptible future of the procedure.
use libinger.Base.{ℕ, some}
use libinger.Machine.{default_tls}
use libinger.Linger.Resume.{Continuation, fresh}
use libinger.Linger.Resume.Valid.{Valid}
use libinger.Tests.Sample.{gotcha}
use libinger.Tests.Interface.{procedure}

abbrev polled_function : Continuation ℕ ℕ (Unit {0})
polled_function = fresh gotcha procedure 0 3 (some default_tls)
