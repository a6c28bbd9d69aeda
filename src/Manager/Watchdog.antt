-- ===== src/Manager/Watchdog.antt =====
-- The watchdog of `campManagerPool` in FreakyCampManager/freakyCampManager.cpp.
use freaky_camper_arduino.Base.{ℕ, zero, suc, ◌+◌, ◌%◌, ◌≤◌, ◌≡◌, ap, ◌∙◌, arith}
use freaky_camper_arduino.Machine.{Machine, done, M, ◌>>◌, skip, run-bind}
use freaky_camper_arduino.Manager.{tick_watchdog}

-- The watchdog's step in a row of services of the timer.
unfoldable pub ticks : ℕ → M (Unit {0})
ticks zero = skip
ticks (suc n) = do tick_watchdog; ticks n

abbrev pub with_watchdog : Machine → ℕ → Machine
with_watchdog m w = record m { comm = record m.comm { watchdog = w } }

pub tick_watchdog_lem :
    (m : Machine)
    → m.comm.watchdog ≤ 5
    → tick_watchdog m ≡ done tt (with_watchdog m ((m.comm.watchdog + 1) % 6))
unfolding tick_watchdog
tick_watchdog_lem m k = ground arith

-- However often the step of the watchdog runs in a row, a watchdog of at most five counts the steps
-- modulo six and nothing else changes: it expires at each sixth step and is never above five.
pub ticks_lem :
    (n : ℕ) (m : Machine)
    → m.comm.watchdog ≤ 5
    → ticks n m ≡ done tt (with_watchdog m ((m.comm.watchdog + n) % 6))
unfolding ticks
ticks_lem zero m k = ap (λ w. done tt (with_watchdog m w)) (omega arith)
ticks_lem (suc n) m k =
    run-bind tick_watchdog (λ _. ticks n) m tt (with_watchdog m ((m.comm.watchdog + 1) % 6))
      (tick_watchdog_lem m k)
    ∙ (ticks_lem n (with_watchdog m ((m.comm.watchdog + 1) % 6)) (omega arith)
        ∙ ap (λ w. done tt (with_watchdog m w)) (omega arith))
