-- ===== src/Data/Watchdog.antt =====
-- The output watchdog: what a client that goes quiet brings about.
use ether_dog.Base.{
  ◌∙◌, ap, ℕ, zero, suc, ◌+◌, ◌*◌, ◌^◌, true, false, List, [], none, some, ◌≡◌, refl, arith, ◌<◌,
  ◌≤◌, replicate, max, ◌/◌,
}
use native.Mathlib.Nat.{div-le_self, div-mul-le_self, lt-div-mul-add}
use ether_dog.Base.Int.{pos}
use ether_dog.Data.Session.{Channel, inc64}
use ether_dog.Data.Outputs.{apply_outputs, timeout_cycles}
use ether_dog.Data.Frames.{accepted, newest}
use ether_dog.Data.Refine.{
  mapped_outputs, apply_outputs-IsRunning, Image, image, cycle_image, IsRunning,
  apply_outputs-image,
}

cycles_of : ℕ → ℕ
cycles_of cycle_us = 100000 / cycle_us

timeout_cycles-max :
    (cycle_us : ℕ) → 1 ≤ cycle_us → timeout_cycles (pos cycle_us) ≡ max 3 (cycles_of cycle_us)
unfolding timeout_cycles cycles_of
timeout_cycles-max cycle_us h = ground (arith, div-le_self 100000 cycle_us)

-- For a cycle time of at least 1 us the limit is at least 3 cycles, and one cycle more than the
-- limit takes longer than 100 ms. Up to 33333 us the limit itself takes at most 100 ms.
pub timeout_cycles_bounds :
    (cycle_us : ℕ)
    → 1 ≤ cycle_us
    → (3 ≤ timeout_cycles (pos cycle_us))
      × (100000 < (timeout_cycles (pos cycle_us) + 1) * cycle_us)
      × (cycle_us ≤ 33333 → timeout_cycles (pos cycle_us) * cycle_us ≤ 100000)
unfolding cycles_of
timeout_cycles_bounds cycle_us h =
    let e = timeout_cycles-max cycle_us h in
    let low = div-mul-le_self 100000 cycle_us in
    let high = lt-div-mul-add {a = 100000} {b = cycle_us} h in rw e (grind arith)

-- Cycles of the machine in which nothing arrives.
abbrev pub silent_cycles : ℕ → ℕ → ℕ → Image → Image
silent_cycles limit n zero m = m
silent_cycles limit n (suc k) m = silent_cycles limit n k (cycle_image limit n none m)

-- After the trip nothing changes but the count of silent cycles.
silent_cycles-zeroed :
    (limit n k : ℕ) (m : Image)
    → m.zeroed ≡ true
    → ((silent_cycles limit n k m).outputs ≡ m.outputs)
      × ((silent_cycles limit n k m).trips ≡ m.trips)
silent_cycles-zeroed limit n zero m z = (refl, refl)
silent_cycles-zeroed limit n (suc k) m z =
    ground (arith, silent_cycles-zeroed limit n k (cycle_image limit n none m))

module _ (limit n : ℕ) where
  silent_cycles-before :
      (k : ℕ) (m : Image)
      → m.silent + k < 2 ^ 32
      → m.silent + k ≤ limit
      → ((silent_cycles limit n k m).outputs ≡ m.outputs)
        × ((silent_cycles limit n k m).trips ≡ m.trips)
  silent_cycles-before zero m w h = (refl, refl)
  silent_cycles-before (suc k) m w h =
      ground (arith, silent_cycles-before k (cycle_image limit n none m))

  silent_cycles-after :
      (k : ℕ) (m : Image)
      → m.silent + k < 2 ^ 32
      → m.silent ≤ limit
      → limit < m.silent + k
      → m.zeroed ≡ false
      → ((silent_cycles limit n k m).outputs ≡ some (replicate n 0))
        × ((silent_cycles limit n k m).trips ≡ inc64 m.trips)
  silent_cycles-after zero m w b h z = absurd (omega arith)
  silent_cycles-after (suc k) m w b h z = ground (
    arith,
    silent_cycles-after k (cycle_image limit n none m),
    silent_cycles-zeroed limit n k (cycle_image limit n none m),
  )

-- Bus cycles of the master in which nothing arrives, with the lock free.
unfoldable pub run_silent : ℕ → ℕ → Channel → Channel
run_silent master_index zero c = c
run_silent master_index (suc k) c = run_silent master_index k (apply_outputs master_index true [] c)

run_silent-image :
    (master_index k : ℕ) (c : Channel) (region : List ℕ)
    → IsRunning c region
    → image (run_silent master_index k c)
      ≡ silent_cycles (timeout_cycles c.io.cycle_time_us) c.io.output_bytes k (image c)
unfolding run_silent accepted newest
run_silent-image master_index zero c region r = refl
run_silent-image master_index (suc k) c region r =
    let (region', r', io) = apply_outputs-IsRunning master_index [] c region r in
    let one = apply_outputs-image master_index [] c region r in
    let rest = run_silent-image master_index k (apply_outputs master_index true [] c) region' r' in
    rest ∙ λ i. silent_cycles (timeout_cycles (io.cycle_time_us i)) (io.output_bytes i) k (one i)

-- The watchdog. While a running master with an open session, whose outputs are not zeroed and
-- whose silence is within the limit of `timeout_cycles`, gets no datagram, its outputs stay as
-- they are up to the limit; with the first cycle past the limit they are all zero, and exactly one
-- trip is counted, however long the silence lasts (the count of silent cycles being below 2 ^ 32).
pub run_silent-outputs :
    (master_index k : ℕ) (c : Channel) (region : List ℕ)
    → IsRunning c region
    → c.data_session.outputs_zeroed ≡ false
    → c.data_session.cycles_since_output ≤ timeout_cycles c.io.cycle_time_us
    → c.data_session.cycles_since_output + k < 2 ^ 32
    → let c' = run_silent master_index k c in
      let silent = c.data_session.cycles_since_output + k in
      let limit = timeout_cycles c.io.cycle_time_us in
      (silent ≤ limit
        → (c'.io.outputs ≡ some region)
          × (c'.data_session.watchdog_trips ≡ c.data_session.watchdog_trips))
      × (limit < silent
          → (c'.io.outputs ≡ some (replicate c.io.output_bytes 0))
            × (c'.data_session.watchdog_trips ≡ inc64 c.data_session.watchdog_trips))
run_silent-outputs master_index k c region r z b w =
    let e = run_silent-image master_index k c region r in
    let limit = timeout_cycles c.io.cycle_time_us in
    let n = c.io.output_bytes in
    (
      λ h.
          let same = silent_cycles-before limit n k (image c) w h in
          (
            ap (λ (m : Image). m.outputs) e ∙ same.0 ∙ mapped_outputs c region r.mapped,
            ap (λ (m : Image). m.trips) e ∙ same.1,
          ),
      λ h.
          let tripped = silent_cycles-after limit n k (image c) w b h z in
          (ap (λ (m : Image). m.outputs) e ∙ tripped.0, ap (λ (m : Image). m.trips) e ∙ tripped.1),
    )
