-- ===== src/Submission/Nearby/Recent.antt =====
-- Calls of `get_nearby_reports` with pauses between them, while the reports change.
use mathlib.Core.List.{Mem}
use matata_backend.Common.{
  ℕ, ℤ, ◌+◌, ◌≤◌, ◌<◌, ◌≡◌, refl, min, true, none, some, List, [], ◌∷◌, ltb, leb, inl, inr,
  Bool-cases, Option-cases, ==_refl, arith,
}
use matata_backend.Common.Lists.{All, All-mem, All-take, All-weaken}
use matata_backend.Common.Sort.{sort_by-All, filter-All}
use matata_backend.Common.Table.{Table}
use matata_backend.Models.{Report}
use matata_backend.Submission.Own.{latest_first}
use matata_backend.Submission.Nearby.{
  Nearby, Cell, Cache, Entry, cell_of, cell_eq, set, is_shown, nearby_of, query_nearby,
  get_nearby_reports,
}

-- A call, after a pause.
pub record Call : Type 0 where
  pub pause : ℕ
  pub lat : ℤ
  pub lng : ℤ
  pub radius_m : ℕ

module _ (lng_delta : ℕ → ℤ → ℕ) (haversine_m : ℤ → ℤ → ℤ → ℤ → ℕ) where
  -- A pending or verified report of the table, at its own place within the radius.
  abbrev pub IsNear : ℤ → ℤ → ℕ → Table Report → Nearby → Type 0
  IsNear lat lng radius_m t n =
      (r : Report) × Mem (n.id, r) t
      × (is_shown r ≡ true)
      × (r.lat ≡ some n.lat)
      × (r.lng ≡ some n.lng)
      × (haversine_m lat lng n.lat n.lng ≤ radius_m)

  nearby-IsNear :
      (lat lng : ℤ) (radius_m : ℕ) (t : Table Report) (rows : List (ℕ × Report))
      → All (λ (k, r). Mem (k, r) t × (is_shown r ≡ true)) rows
      → All (IsNear lat lng radius_m t) (nearby_of lng_delta haversine_m lat lng radius_m rows)
  unfolding nearby_of
  nearby-IsNear lat lng radius_m t [] h = tt
  nearby-IsNear lat lng radius_m t ((k, r) ∷ rows) ((m, shown), h) =
      let rest = nearby-IsNear lat lng radius_m t rows h in
      elim (Option-cases r.lat) [
        | inl e ↦ rw (nearby_of, e) rest
        | inr (a, e) ↦ elim (Option-cases r.lng) [
          | inl f ↦ rw (nearby_of, e, f) rest
          | inr (o, f) ↦ elim (Bool-cases (leb (haversine_m lat lng a o) radius_m)) [
            | inl near ↦
                rw (nearby_of, e, f, near) ((r, m, shown, e, f, ground (arith, near)), rest)
            | inr far ↦ rw (nearby_of, e, f, far) rest
          ]
        ]
      ]

  query-IsNear :
      (lat lng : ℤ) (radius_m : ℕ) (t : Table Report)
      → All (IsNear lat lng radius_m t) (query_nearby lng_delta haversine_m lat lng radius_m t)
  unfolding query_nearby
  query-IsNear lat lng radius_m t = nearby-IsNear lat lng radius_m t _ (
      All-take _ 50 _ (
        sort_by-All _ latest_first _ (
          All-weaken _ _ _ (λ (k, r) (m, e). (m, ground (arith, e)))
            (filter-All _ _ t (All-mem t)))))

  -- The answer to a point of the same cell, from the reports of less than thirty seconds ago.
  pub record IsRecent (seen : ℕ → Table Report) (now : ℕ) (key : Cell) (output : List Nearby)
      : Type 0 where
    pub at : ℕ
    pub lat : ℤ
    pub lng : ℤ
    pub radius_m : ℕ
    pub past : at ≤ now
    pub fresh : now < at + 30
    pub bounded : radius_m ≤ 100000
    pub same_cell : cell_eq key (cell_of lat lng radius_m) ≡ true
    pub queried : output ≡ query_nearby lng_delta haversine_m lat lng radius_m (seen at)
    pub near : All (IsNear lat lng radius_m (seen at)) output

  -- Where an entry of the cache comes from.
  record Origin (seen : ℕ → Table Report) (now : ℕ) (key : Cell) (e : Entry) : Type 0 where
    at : ℕ
    lat : ℤ
    lng : ℤ
    radius_m : ℕ
    past : at ≤ now
    expires : e.expires_at ≡ at + 30
    bounded : radius_m ≤ 100000
    same_cell : cell_eq key (cell_of lat lng radius_m) ≡ true
    queried : e.output ≡ query_nearby lng_delta haversine_m lat lng radius_m (seen at)

  abbrev IsExplained : (ℕ → Table Report) → ℕ → Cache → Type 0
  IsExplained seen now cache = (key : Cell) (e : Entry) → cache key ≡ some e → Origin seen now key e

  cell_eq_refl : (key : Cell) → cell_eq key key ≡ true
  cell_eq_refl ((s, a), (t, b), m) = ground (arith, ==_refl a, ==_refl b, ==_refl m)

  -- An entry that has not expired is a recent answer.
  hit-IsRecent :
      (seen : ℕ → Table Report) (now : ℕ) (key : Cell) (e : Entry)
      → Origin seen now key e
      → ltb now e.expires_at ≡ true
      → IsRecent seen now key e.output
  hit-IsRecent seen now key e o live = record {
    at = o.at;
    lat = o.lat;
    lng = o.lng;
    radius_m = o.radius_m;
    past = o.past;
    fresh = ground (arith, live, o.expires);
    bounded = o.bounded;
    same_cell = o.same_cell;
    queried = o.queried;
    near = rw (o.queried) (query-IsNear o.lat o.lng o.radius_m (seen o.at));
  }

  later-IsExplained :
      (seen : ℕ → Table Report) (now pause : ℕ) (cache : Cache)
      → IsExplained seen now cache
      → IsExplained seen (now + pause) cache
  later-IsExplained seen now pause cache h key e found =
      let o = h key e found in
      record {
        at = o.at;
        lat = o.lat;
        lng = o.lng;
        radius_m = o.radius_m;
        past = omega (arith, o.past);
        expires = o.expires;
        bounded = o.bounded;
        same_cell = o.same_cell;
        queried = o.queried;
      }

  -- A query that is made now explains its own entry.
  set-IsExplained :
      (seen : ℕ → Table Report) (now : ℕ) (lat lng : ℤ) (radius_m : ℕ) (cache : Cache)
      → radius_m ≤ 100000
      → IsExplained seen now cache
      → IsExplained seen now (
          set
            (cell_of lat lng radius_m)
            (record {
              expires_at = now + 30;
              output = query_nearby lng_delta haversine_m lat lng radius_m (seen now);
            })
            cache)
  set-IsExplained seen now lat lng radius_m cache le h key e found =
      elim (Bool-cases (cell_eq key (cell_of lat lng radius_m))) [
        | inl same ↦ record {
          at = now;
          lat = lat;
          lng = lng;
          radius_m = radius_m;
          past = omega arith;
          expires = ground (arith, same, found);
          bounded = le;
          same_cell = same;
          queried = ground (arith, same, found);
        }
        | inr other ↦ h key e (ground (arith, other, found))
      ]

  -- A call gives a recent answer, and leaves a cache that is explained.
  get-IsRecent :
      (seen : ℕ → Table Report) (now : ℕ) (lat lng : ℤ) (radius_m : ℕ) (cache : Cache)
      → IsExplained seen now cache
      → let (output, cache') =
          get_nearby_reports lng_delta haversine_m lat lng radius_m now (seen now) cache in
        IsRecent seen now (cell_of lat lng (min radius_m 100000)) output
        × IsExplained seen now cache'
  unfolding get_nearby_reports
  get-IsRecent seen now lat lng radius_m cache h =
      let radius = min radius_m 100000 in
      let key = cell_of lat lng radius in
      let le : radius ≤ 100000 = omega arith in
      let asked : IsRecent seen now key
          (query_nearby lng_delta haversine_m lat lng radius (seen now)) =
        record {
          at = now;
          lat = lat;
          lng = lng;
          radius_m = radius;
          past = omega arith;
          fresh = omega arith;
          bounded = le;
          same_cell = cell_eq_refl key;
          queried = refl;
          near = query-IsNear lat lng radius (seen now);
        } in
      let filled = set-IsExplained seen now lat lng radius cache le h in
      elim (Option-cases (cache key)) [
        | inl e ↦ rw (get_nearby_reports, e) (asked, filled)
        | inr (entry, e) ↦ elim (Bool-cases (ltb now entry.expires_at)) [
          | inl live ↦
              rw (get_nearby_reports, e, live)
                (hit-IsRecent seen now key entry (h key entry e) live, h)
          | inr over ↦ rw (get_nearby_reports, e, over) (asked, filled)
        ]
      ]

  -- The calls from a time on, each with the time and the answer, while the reports are as `seen` says.
  unfoldable pub answers :
      (ℕ → Table Report) → ℕ → List Call → Cache → List (ℕ × Call × List Nearby)
  answers seen now [] cache = []
  answers seen now (c ∷ calls) cache =
      let at = now + c.pause in
      let (output, cache') =
        get_nearby_reports lng_delta haversine_m c.lat c.lng c.radius_m at (seen at) cache in
      (at, c, output) ∷ answers seen at calls cache'

  abbrev pub Answered : (ℕ → Table Report) → ℕ × Call × List Nearby → Type 0
  Answered seen (at, c, output) =
      IsRecent seen at (cell_of c.lat c.lng (min c.radius_m 100000)) output

  answers-Answered :
      (seen : ℕ → Table Report) (now : ℕ) (calls : List Call) (cache : Cache)
      → IsExplained seen now cache
      → All (Answered seen) (answers seen now calls cache)
  unfolding answers
  answers-Answered seen now [] cache h = tt
  answers-Answered seen now (c ∷ calls) cache h =
      let at = now + c.pause in
      let step =
        get-IsRecent seen at c.lat c.lng c.radius_m cache
          (later-IsExplained seen now c.pause cache h) in
      (step.0, answers-Answered seen at calls _ step.1)

  -- From an empty cache, every call is answered with what a query for a point of the same cell gave less
  -- than thirty seconds before: pending or verified reports of that time, at most the radius and a
  -- hundred metres from that point.
  pub get_nearby_reports-Answered :
      (seen : ℕ → Table Report) (now : ℕ) (calls : List Call)
      → All (Answered seen) (answers seen now calls (λ key. none))
  get_nearby_reports-Answered seen now calls =
      answers-Answered seen now calls (λ key. none) (λ key e found. absurd (ground (arith, found)))
