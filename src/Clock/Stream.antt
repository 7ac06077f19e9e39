-- ===== src/Clock/Stream.antt =====
-- The events that a run's calls of `emit` append, as a list of their own.
use mathlib.Core.List.{append_assoc, append-nil}
use jesterky.Prelude.{◌+◌, ◌%◌, ◌^◌, ◌≡◌, sym, ◌∙◌, List, [], ◌∷◌, ◌++◌, String}
use jesterky.Event.{Event}
use jesterky.Clock.Defs.{Lane, AddrSeqs, next_seq, set_seq, LogicalClock, emit, Emission, emit_all}

-- The event of one call, from the counters before it.
abbrev pub event_of : String → AddrSeqs → Emission → Event
event_of run_id seqs e = record {
  addr = record {
    run_id = run_id;
    node_path = e.lane.0;
    iteration = e.lane.1;
    local_seq = next_seq e.lane seqs;
  };
  kind = e.kind;
  payload = e.payload;
  wall_ms = e.now_ms;
}

abbrev pub counted : AddrSeqs → Lane → AddrSeqs
counted seqs lane = set_seq lane ((next_seq lane seqs + 1) % 2 ^ 32) seqs

unfoldable pub stream : String → AddrSeqs → List Emission → List Event
stream run_id seqs [] = []
stream run_id seqs (e ∷ es) = event_of run_id seqs e ∷ stream run_id (counted seqs e.lane) es

pub sink-emit_all :
    (c : LogicalClock) (es : List Emission)
    → (emit_all c es).sink ≡ c.sink ++ stream c.run_id c.addr_seqs es
unfolding emit_all stream
sink-emit_all c [] = sym (append-nil c.sink)
sink-emit_all c (e ∷ es) =
    sink-emit_all (emit c e.lane.0 e.lane.1 e.kind e.payload e.now_ms).1 es
    ∙ append_assoc c.sink (event_of c.run_id c.addr_seqs e ∷ []) _
