-- ===== src/Buffer/Tests.antt =====
-- The buffer arrays with a malloc that fails at its second call, and one that never does.
use synchronome.Base.{◌==◌, List, [], ◌∷◌, none, some, if◌then◌else◌}
use synchronome.Base.Int.{pos}
use synchronome.Buffer.{Buffer, Malloc, null}

abbrev blank : Buffer
blank = record {
  start = null;
  size = 0;
  time = record { tv_sec = pos 0; tv_nsec = pos 0 };
  index = pos 0;
  id = pos 0;
}

abbrev one_only : Malloc
one_only call size = if call == 0 then some (λ i. 7) else none

abbrev always : Malloc
always call size = some (λ i. 7)

abbrev three : List Buffer
three = blank ∷ blank ∷ blank ∷ []
