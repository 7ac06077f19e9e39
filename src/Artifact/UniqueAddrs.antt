-- ===== src/Artifact/UniqueAddrs.antt =====
-- The check `unique_event_addrs` against the logical clock.
use jesterky.Clock.{fresh_clock, emit_all, Emission}
use jesterky.F64.{F64}
use jesterky.Artifact.Checks.{unique_addrs_check}
use jesterky.Clock.Unique.{emit_all_unique, AreUnique}
use jesterky.Artifact.{has_addr, find_duplicate}
use jesterky.Prelude.{
  ◌^◌, ◌<◌, some, is_none, length, Option, true, String, ◌||◌, Bool, inr, inl, arith, Bool-cases,
  [], false, ◌↔◌, none, All, ◌∷◌, ◌≡◌, List,
}
use jesterky.Event.{Event, addr_eq, Addr}

-- No event has an address of the list.
abbrev Absent : List Addr → List Event → Type 0
Absent seen events = All (λ (e : Event). has_addr e.addr seen ≡ false) events

or_false : (a b : Bool) → (a || b ≡ false) ↔ ((a ≡ false) × (b ≡ false))
or_false a b = ground arith

Absent-cons :
    (a : Addr) (seen : List Addr) (events : List Event)
    → Absent (a ∷ seen) events
      ↔ (All (λ (e : Event). addr_eq a e.addr ≡ false) events × Absent seen events)
Absent-cons a seen [] = (λ h. (tt, tt), λ h. tt)
Absent-cons a seen (e ∷ es) =
    let (split, join) = Absent-cons a seen es in
    let head = or_false (addr_eq a e.addr) (has_addr e.addr seen) in
    (
      λ h.
          let (differs, away) = split h.1 in
          let (differs_e, away_e) = head.0 h.0 in ((differs_e, differs), (away_e, away)),
      λ h. (head.1 (h.0.0, h.1.0), join (h.0.1, h.1.1)),
    )

-- Nothing is found exactly if the addresses differ from each other and from those seen.
pub find_duplicate_lem :
    (events : List Event) (seen : List Addr)
    → (find_duplicate seen events ≡ none) ↔ (AreUnique events × Absent seen events)
unfolding find_duplicate
find_duplicate_lem [] seen = (λ h. (tt, tt), λ h i. none)
find_duplicate_lem (e ∷ es) seen =
    let rest = find_duplicate_lem es (e.addr ∷ seen) in
    let cons = Absent-cons e.addr seen es in
    elim (Bool-cases (has_addr e.addr seen)) [
      | inl held ↦ rw held ((λ h. cc), λ h. cc)
      | inr fresh ↦ rw fresh (
        λ h.
            let (unique, away) = rest.0 h in
            let (differs, away') = cons.0 away in ((differs, unique), ((λ i. false), away')),
        λ h. rest.1 (h.0.1, cons.1 (h.0.0, h.1.1)),
      )
    ]

Absent-nil : (events : List Event) → Absent [] events
Absent-nil [] = tt
Absent-nil (e ∷ es) = ((λ i. false), Absent-nil es)

is_none_iff : (o : Option Event) → (is_none o ≡ true) ↔ (o ≡ none)
is_none_iff none = (λ h i. none, λ h i. true)
is_none_iff (some e) = (λ h. cc, λ h. cc)

-- The check `unique_event_addrs` holds exactly if no event has the address of an earlier one.
pub unique_addrs_lem :
    (show_addr : Addr → String) (show_f64 : F64 → String) (events : List Event)
    → ((unique_addrs_check show_addr show_f64 events).ok ≡ true) ↔ AreUnique events
unfolding unique_addrs_check
unique_addrs_lem show_addr show_f64 events =
    let (sound, complete) = find_duplicate_lem events [] in
    let (to, from) = is_none_iff (find_duplicate [] events) in
    (λ h. (sound (to h)).0, λ h. from (complete (h, Absent-nil events)))

-- The events of fewer than 2^32 calls of `emit` on a fresh clock pass `unique_event_addrs`.
pub unique_addrs-emit_all :
    (show_addr : Addr → String) (show_f64 : F64 → String) (run_id : String) (es : List Emission)
    → length es < 2 ^ 32
    → (unique_addrs_check show_addr show_f64 (emit_all (fresh_clock run_id) es).sink).ok ≡ true
unique_addrs-emit_all show_addr show_f64 run_id es h =
    (unique_addrs_lem show_addr show_f64 (emit_all (fresh_clock run_id) es).sink).1
      (emit_all_unique run_id es h)
