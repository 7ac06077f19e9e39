-- ===== src/Runner/Streams.antt =====
-- The clock of a run only moves by calls of `emit`.
use jesterky.Clock.Stream.{event_of}
use jesterky.Runner.Keeps.{IsKept}
use jesterky.Prelude.{length-append, arith, ◌+◌, length, refl, sym, ap, ◌∷◌, ◌≡◌, ◌∙◌, [], List}
use jesterky.Runner.Seam.{RunState}
use jesterky.Clock.{emit, Emission, LogicalClock, emit_all}
use mathlib.Core.List.{◌++◌ as ◌⧺◌}

-- The later clock is what some calls of `emit` make of the earlier one.
abbrev pub Emitted : {S : Type 0} → RunState S → RunState S → Type 0
Emitted s t = (es : List Emission) × (t.clock ≡ emit_all s.clock es)

pub emit_all-append :
    (c : LogicalClock) (es fs : List Emission) → emit_all c (es ⧺ fs) ≡ emit_all (emit_all c es) fs
unfolding emit_all
emit_all-append c [] fs = refl
emit_all-append c (e ∷ es) fs =
    emit_all-append (emit c e.lane.0 e.lane.1 e.kind e.payload e.now_ms).1 es fs

pub Emitted-IsKept : {S : Type 0} → IsKept {S = S} Emitted
unfolding emit_all
Emitted-IsKept = record {
  here = λ s. ([], refl);
  later = λ s t u a b.
      (a.0 ⧺ b.0, b.1 ∙ ap (λ c. emit_all c b.0) a.1 ∙ sym (emit_all-append s.clock a.0 b.0));
  on_host = λ s h. ([], refl);
  on_emit = λ s path iteration kind_ payload t.
      (record { lane = (path, iteration); kind = kind_; payload = payload; now_ms = t } ∷ [], refl);
  on_record = λ s r. ([], refl);
  on_io = λ s lane io. ([], refl);
  guarded = λ s t name set e a. a;
}

pub run_id-emit_all : (es : List Emission) (c : LogicalClock) → (emit_all c es).run_id ≡ c.run_id
unfolding emit_all
run_id-emit_all [] c = refl
run_id-emit_all (e ∷ es) c =
    run_id-emit_all es (emit c e.lane.0 e.lane.1 e.kind e.payload e.now_ms).1

pub length-sink :
    (c : LogicalClock) (es : List Emission)
    → length (emit_all c es).sink ≡ length c.sink + length es
unfolding emit_all emit
length-sink c [] = omega arith
length-sink c (e ∷ es) = omega (
  arith,
  length-sink (emit c e.lane.0 e.lane.1 e.kind e.payload e.now_ms).1 es,
  length-append c.sink (event_of c.run_id c.addr_seqs e ∷ []),
)
