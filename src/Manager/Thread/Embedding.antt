-- ===== src/Manager/Thread/Embedding.antt =====
-- The states between whole rounds and whole interrupts are reached by runs.
use freaky_camper_arduino.Base.{◌≡◌, subst, [], ◌++◌}
use freaky_camper_arduino.Board.{Env}
use freaky_camper_arduino.Machine.{Machine, done, Ends}
use freaky_camper_arduino.Manager.{freaky_camp_manager_start}
use freaky_camper_arduino.Manager.Interleaving.{Reach, start, next, main_loop, interrupt}
use freaky_camper_arduino.Manager.Thread.{Pc, Run, stay}
use freaky_camper_arduino.Manager.Thread.Coarse.{Lands, Run-append, freaky_camp_manager_loop-Lands}

-- A run from the end of a start.
pub record RunsFrom (env : Env) (m m' : Machine) : Type 0 where
  pub begun : Machine
  pub started : freaky_camp_manager_start env m ≡ done tt begun
  pub lands : Lands env begun Pc.top Pc.top m'

then_lands :
    {env : Env} {m m' m'' : Machine}
    → RunsFrom env m m'
    → Lands env m' Pc.top Pc.top m''
    → RunsFrom env m m''
then_lands {env} {m} {m'} {m''} x y = record {
  begun = x.begun;
  started = x.started;
  lands = record {
    events = x.lands.events ++ y.events;
    run =
        Run-append env x.begun m' m'' Pc.top Pc.top Pc.top x.lands.events y.events x.lands.run
          y.run;
  };
}

-- Every state that the program reaches where rounds of the main loop and interrupts run to their ends,
-- one after the other, is the end of a run in which interrupts may come between any two accesses, at the
-- top of the main loop and after the same start.
pub Reach-RunsFrom : (env : Env) (m m' : Machine) → Reach env m m' → RunsFrom env m m'
Reach-RunsFrom env m m' (start e) = record {
  begun = m';
  started = e;
  lands = record { events = []; run = stay };
}
Reach-RunsFrom env m m' (next {m' = n} r (main_loop e)) =
    then_lands (Reach-RunsFrom env m n r)
      (subst (Ends (Unit {0}) (Lands env n Pc.top Pc.top)) e (freaky_camp_manager_loop-Lands env n))
Reach-RunsFrom env m m' (next {m' = n} r (interrupt i)) =
    then_lands (Reach-RunsFrom env m n r) (record { events = []; run = Run.interrupt i stay })
