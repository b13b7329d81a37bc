-- ===== src/Descriptors/Clock.antt =====
-- The clock of a streaming setting: how selectAltSetting of src/libusb_uac_driver.cpp follows the
-- topology from the terminal to a CLOCK_SOURCE, and the clocks that it keeps as candidates.
use liballa.Base.{
  ℕ, zero, suc, ◌≤◌, ◌≡◌, ◌≢◌, refl, Bool, true, false, not, List, [], ◌∷◌, ◌++◌, Option, none,
  some, arith, ◌==◌, if◌then◌else◌,
}
use liballa.Descriptors.{ClockEntity, TermClock, ac_clock_source}

-- The clock of the terminal that the setting links to, or 0.
abbrev pub terminal_clock : List TermClock → ℕ → ℕ
terminal_clock [] link = 0
terminal_clock (tc ∷ terminals) link =
    if tc.term_id == link then tc.clock_id else terminal_clock terminals link

abbrev pub find_entity : List ClockEntity → ℕ → Option ClockEntity
find_entity [] id = none
find_entity (ce ∷ entities) id = if ce.id == id then some ce else find_entity entities id

abbrev pub is_source : ClockEntity → Bool
is_source ce = ce.subtype == ac_clock_source

-- The loop over at most `hops` selectors and multipliers.
unfoldable pub follow : List ClockEntity → ℕ → ℕ → ℕ
follow entities zero id = id
follow entities (suc hops) id = if id == 0 then id else elim (find_entity entities id) [
  | none ↦ id
  | some ent ↦
      let next = follow entities hops ent.base_id in
      if is_source ent then id else if ent.base_id == 0 then id else next
]

abbrev pub first_source : List ClockEntity → ℕ
first_source [] = 0
first_source (ce ∷ entities) = if is_source ce then ce.id else first_source entities

abbrev pub front_id : List ClockEntity → ℕ
front_id [] = 0
front_id (ce ∷ entities) = ce.id

-- `resolvedClock`
unfoldable pub resolve_clock : List TermClock → List ClockEntity → ℕ → ℕ
resolve_clock terminals entities link =
    let followed = follow entities 4 (terminal_clock terminals link) in
    let found = if followed == 0 then first_source entities else followed in
    if found == 0 then front_id entities else found

abbrev pub ids_where : (ClockEntity → Bool) → List ClockEntity → List ℕ
ids_where keep [] = []
ids_where keep (ce ∷ entities) =
    if keep ce then ce.id ∷ ids_where keep entities else ids_where keep entities

-- `candidateClockIds`
unfoldable pub candidate_clock_ids : List ClockEntity → List ℕ
candidate_clock_ids entities =
    ids_where is_source entities ++ ids_where (λ ce. not (is_source ce)) entities

-- From a clock to a CLOCK_SOURCE through that many selectors and multipliers.
pub data Leads (entities : List ClockEntity) : ℕ → ℕ → ℕ → Type 0 where
  arrived :
      {id : ℕ} (ent : ClockEntity)
      → find_entity entities id ≡ some ent
      → is_source ent ≡ true
      → id ≢ 0
      → Leads entities 0 id id
  through :
      {hops id source : ℕ} (ent : ClockEntity)
      → find_entity entities id ≡ some ent
      → is_source ent ≡ false
      → id ≢ 0
      → Leads entities hops ent.base_id source
      → Leads entities (suc hops) id source

start_nonzero :
    {entities : List ClockEntity} {hops id source : ℕ} → Leads entities hops id source → id ≢ 0
start_nonzero (arrived ent e s h) = h
start_nonzero (through ent e s h l) = h

end_nonzero :
    {entities : List ClockEntity} {hops id source : ℕ} → Leads entities hops id source → source ≢ 0
end_nonzero (arrived ent e s h) = h
end_nonzero (through ent e s h l) = end_nonzero l

follow-leads :
    (entities : List ClockEntity) (fuel : ℕ) {hops id source : ℕ}
    → Leads entities hops id source
    → hops ≤ fuel
    → follow entities fuel id ≡ source
unfolding follow
follow-leads entities zero (arrived ent e s h) enough = refl
follow-leads entities (suc fuel) (arrived ent e s h) enough = rw (e, s) (ground arith)
follow-leads entities zero (through ent e s h l) enough = absurd (omega arith)
follow-leads entities (suc fuel) (through ent e s h l) enough =
    let next = follow-leads entities fuel l (omega arith) in
    let nz = start_nonzero l in rw (e, s) (ground (arith, next))

-- Where the terminal of the setting leads to a CLOCK_SOURCE through at most four selectors and
-- multipliers, that source is the clock that `selectAltSetting` resolves for it.
pub resolve_clock_lem :
    (terminals : List TermClock) (entities : List ClockEntity) (link hops source : ℕ)
    → Leads entities hops (terminal_clock terminals link) source
    → hops ≤ 4
    → resolve_clock terminals entities link ≡ source
unfolding resolve_clock
resolve_clock_lem terminals entities link hops source leads few =
    let followed = follow-leads entities 4 leads few in
    let nz = end_nonzero leads in rw followed (ground arith)
