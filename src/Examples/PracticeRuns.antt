-- ===== src/Examples/PracticeRuns.antt =====
-- The module that answers with the time, at concrete readings and answers.
use ttex_kernel.Common.{◌≡◌, pos, arith}
use ttex_kernel.Timespec.Value.{nanos}
use ttex_kernel.Timespec.Order.{IsReading}
use ttex_kernel.Practice.Interval.{interval, interval-nanos}
use ttex_kernel.Examples.Demo.{clock}

interval-nanos_example :
    (nanos (interval (pos 0) (clock 1 3000000005) (clock 2 8000000001) 77) ≡ pos 4999999996)
    × IsReading (interval (pos 0) (clock 1 3000000005) (clock 2 8000000001) 77)
interval-nanos_example =
    interval-nanos (pos 0) (clock 1 3000000005) (clock 2 8000000001) 77 (omega arith) (omega arith)
