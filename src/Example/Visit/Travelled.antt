-- ===== src/Example/Visit/Travelled.antt =====
-- What `SyncRecordRoute` of route_guide_cb_client.cc writes.
use grpc_cb.Base.{
  ℕ, zero, suc, ◌<◌, ◌≡◌, refl, inl, inr, Bool, none, some, List, [], ◌∷◌, arith, Bytes, Bool-cases,
  length, get_elem?, All,
}
use grpc_cb.Client.{WriterCore, write, close}
use grpc_cb.Example.Points.{Point, Feature, RouteSummary, location_of}
use grpc_cb.Example.Wire.{
  Codec, message_type, WriterView, HasWritten, none-HasWritten, one-HasWritten, append-HasWritten,
  stopped-HasWritten,
}
use grpc_cb.Example.Visit.{visit, drawn, sync_record_route}

-- The locations of the features at some indices.
abbrev pub locations_at : List Feature → List ℕ → List Point
locations_at features [] = []
locations_at features (i ∷ draws) =
    let rest = locations_at features draws in
    elim (get_elem? features i) [ none ↦ rest | some f ↦ location_of f ∷ rest ]

pub get_elem?-below {ℓ} :
    {A : Type ℓ} (xs : List A) (i : ℕ) → i < length xs → (x : A) × (get_elem? xs i ≡ some x)
get_elem?-below [] i h = absurd (omega arith)
get_elem?-below (x ∷ xs) zero h = (x, refl)
get_elem?-below (x ∷ xs) (suc i) h = get_elem?-below xs i (omega arith)

module _ (points : Codec Point) {State : Type 0} (write : Bytes → State → Bool × State)
    (view : WriterView write) where
  pub visit-HasWritten :
      (features : List Feature) (draws : List ℕ) (s : State)
      → All (λ i. i < length features) draws
      → (s' : State) × (visit (λ p. write (points.serialize p)) features draws s ≡ some s')
        × HasWritten points write view s s' (locations_at features draws)
  unfolding visit
  visit-HasWritten features [] s h = (s, refl, none-HasWritten points write view s)
  visit-HasWritten features (i ∷ draws) s (h, hs) =
      let (f, e) = get_elem?-below features i h in
      let wrote = write (points.serialize (location_of f)) s in
      elim (Bool-cases wrote.0) [
        | inl w ↦
            let (s', ran, rest) = visit-HasWritten features draws wrote.1 hs in
            (
              s',
              rw (visit, e) (rw w ran),
              rw (locations_at, e)
                  (append-HasWritten points write view
                    (one-HasWritten points write view (location_of f) s) rest),
            )
        | inr w ↦ (
          wrote.1,
          rw (visit, e) (rw w refl),
          rw (locations_at, e)
              (stopped-HasWritten points write view (location_of f) (locations_at features draws) s
                w),
        )
      ]

pub All-drawn :
    (n : ℕ) (draw : ℕ → ℕ) (i k : ℕ) → ((j : ℕ) → draw j < k) → All (λ j. j < k) (drawn n draw i)
unfolding drawn
All-drawn zero draw i k h = tt
All-drawn (suc n) draw i k h = (h i, All-drawn n draw (suc i) k h)

module _ (points : Codec Point) (summaries : Codec RouteSummary) (core : WriterCore)
    (view : WriterView core.write) where
  -- If the indices that are drawn are in range, `SyncRecordRoute` runs: it writes the locations of the
  -- features at the first ten of them, in order, up to the first that the writer does not accept, then
  -- closes the writer, and returns what closing it does.
  sync_record_route-HasWritten :
      (features : List Feature) (draw : ℕ → ℕ) (s : core.State)
      → ((j : ℕ) → draw j < length features)
      → (s' : core.State) × (sync_record_route points summaries core features draw s
          ≡ some (close (message_type points) (message_type summaries) core summaries.initial s'))
        × HasWritten points core.write view s s' (locations_at features (drawn 10 draw 0))
  unfolding sync_record_route write
  sync_record_route-HasWritten features draw s h =
      let (s', ran, wrote) =
        visit-HasWritten points core.write view features (drawn 10 draw 0) s
          (All-drawn 10 draw 0 (length features) h) in
      (s', rw ran refl, wrote)
