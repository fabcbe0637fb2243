-- ===== src/Probe/Examples.antt =====
-- A probe that succeeds, and the theorem at a concrete input.
use c_item.Base.{none, true, false, List, [], ◌∷◌, ◌≡◌, refl}
use c_item.Probe.{
  Probe, make_probe, close, finish, guarded, start, resolved, connected, written, header_read,
  on_resolve, on_connect, on_write, on_read_header, reports, probe_succeeded, closes, Event,
  completes, expires, handle, step_stage, step, run,
}
use c_item.Probe.Moves.{IsSound, Ended}
use c_item.Probe.Ends.{probe-IsSound}

abbrev events : List Event
events =
    completes (resolved false) false
    ∷ completes (connected false true) false
    ∷ completes (written false) false
    ∷ completes (header_read false 204) false
    ∷ []

abbrev plain : Probe
plain = record {
  secure = false;
  done = false;
  completion = true;
  is_open = true;
  armed = false;
  pending = none;
  log = [];
}

succeeds : (run (start plain false) events).log ≡ reports true probe_succeeded ∷ closes ∷ []
unfolding run step step_stage handle guarded start on_resolve on_connect on_write on_read_header
    finish close
succeeds = refl

probe-IsSound_example :
    IsSound (run (start plain false) events) × Ended (step (run (start plain false) events) expires)
unfolding make_probe
probe-IsSound_example = probe-IsSound true false false false plain events refl
