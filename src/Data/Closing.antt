-- ===== src/Data/Closing.antt =====
-- Closing a session puts the outputs in the safe state on the next cycle.
use ether_dog.Base.{
  ℕ, true, false, List, Option, none, some, length, ◌≡◌, sym, ◌∙◌, ap, arith, replicate,
  zero_fill_whole,
}
use ether_dog.Dgram.{Datagram}
use ether_dog.Data.Session.{Channel, close, output_region}
use ether_dog.Data.Outputs.{apply_outputs, apply_closed, timeout_cycles}
use ether_dog.Data.Frames.{Frame}
use ether_dog.Data.Refine.{
  Image, image, cycle_image, IsRunning, apply_outputs-image, apply_outputs-IsRunning,
}

-- Where the flag says so, the outputs are zero.
abbrev pub IsHonest : Channel → Type 0
IsHonest c =
    c.data_session.outputs_zeroed ≡ true → c.io.outputs ≡ some (replicate c.io.output_bytes 0)

cycle_image-honest :
    (limit n : ℕ) (o : Option Frame) (m : Image)
    → (m.zeroed ≡ true → m.outputs ≡ some (replicate n 0))
    → (cycle_image limit n o m).zeroed ≡ true
    → (cycle_image limit n o m).outputs ≡ some (replicate n 0)
cycle_image-honest limit n none m h = ground arith
cycle_image-honest limit n (some f) m h = ground arith

-- Where the flag `outputs_zeroed` is honest (the outputs are zero if it is set), a cycle of a
-- running master with the lock free keeps it honest.
pub apply_outputs-IsHonest :
    (master_index : ℕ) (queue : List Datagram) (c : Channel) (region : List ℕ)
    → IsRunning c region
    → IsHonest c
    → IsHonest (apply_outputs master_index true queue c)
apply_outputs-IsHonest master_index queue c region r h z =
    let e = apply_outputs-image master_index queue c region r in
    let (region', r', io) = apply_outputs-IsRunning master_index queue c region r in
    rw io.output_bytes (
      ap (λ (m : Image). m.outputs) e
      ∙ cycle_image-honest (timeout_cycles c.io.cycle_time_us) c.io.output_bytes _ (image c) h
          (sym (ap (λ (m : Image). m.zeroed) e) ∙ z))

-- On a mapped image of the size of the layout, with the flag honest, the first cycle after
-- `ecat_data_close` with the lock free leaves all outputs zero and nothing open, whatever is still
-- queued, and further cycles change nothing.
pub apply_outputs-close :
    (master_index : ℕ) (queue later : List Datagram) (c : Channel) (region : List ℕ)
    → output_region c.io ≡ some region
    → length region ≡ c.io.output_bytes
    → IsHonest c
    → let c' =
        apply_outputs master_index true queue (record c { data_session = close c.data_session }) in
      (c'.io.outputs ≡ some (replicate c.io.output_bytes 0))
      × (c'.data_session.is_open ≡ false)
      × (apply_outputs master_index true later c' ≡ c')
unfolding apply_outputs apply_closed close output_region
apply_outputs-close master_index queue later c region m l h =
    ground (arith, zero_fill_whole region c.io.output_bytes l)
