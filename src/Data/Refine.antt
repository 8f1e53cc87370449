-- ===== src/Data/Refine.antt =====
-- `ecat_data_apply_outputs` on an open session, seen as a machine on the output image alone.
use ether_dog.Base.{
  sym, length-replicate, ◌∙◌, length-memcpy, ℕ, Bool, true, false, not, ◌&&◌, List, Option, none,
  some, if◌then◌else◌, drop, length, ◌≡◌, refl, arith, ◌≤◌, memcpy, zero_fill, replicate, drop_all,
  append_nil, length-drop, length-append, ltb, zero_fill_whole,
}
use ether_dog.Dgram.{Datagram}
use ether_dog.Data.Session.{Session, Io, Channel, inc32, inc64, output_region}
use ether_dog.Data.Outputs.{Drain, drain, finish_outputs, apply_outputs, timeout_cycles}
use ether_dog.Data.Frames.{Frame, Terms, accepted, newest}
use ether_dog.Data.Receive.{IsReady, IsOpen}
use ether_dog.Data.Drain.{Outcome, Keeps, drain-Drained}

-- What the slaves see, and what the watchdog remembers.
pub record Image : Type 0 where
  pub outputs : Option (List ℕ)
  pub zeroed : Bool
  pub silent : ℕ
  pub trips : ℕ

abbrev pub image : Channel → Image
image c = record {
  outputs = c.io.outputs;
  zeroed = c.data_session.outputs_zeroed;
  silent = c.data_session.cycles_since_output;
  trips = c.data_session.watchdog_trips;
}

-- One cycle of the machine: the newest frame decides, and without one the cycle is silent. More
-- than `limit` silent cycles set outputs that are not yet zero to zero, and count a trip.
abbrev pub cycle_image : ℕ → ℕ → Option Frame → Image → Image
cycle_image limit n (some f) m =
    if f.valid
    then record m { outputs = some f.payload; zeroed = false; silent = 0 }
    else record m { outputs = some (replicate n 0); zeroed = true; silent = 0 }
cycle_image limit n none m =
    if ltb limit (inc32 m.silent) && not m.zeroed
    then record {
      outputs = some (replicate n 0);
      zeroed = true;
      silent = inc32 m.silent;
      trips = inc64 m.trips;
    }
    else record m { silent = inc32 m.silent }

-- The terms of an open session.
abbrev pub terms : ℕ → Channel → Terms
terms master_index c = record {
  master_index = master_index;
  output_bytes = c.io.output_bytes;
  session = c.data_session.session;
  peer = c.data_session.peer;
}

-- A running master with an open session: the image is mapped, and the buffers fit the layout.
pub record IsRunning (c : Channel) (region : List ℕ) : Type 0 where
  pub mapped : output_region c.io ≡ some region
  pub sized : length region ≡ c.io.output_bytes
  pub opened : c.data_session.is_open ≡ true
  pub ready : IsReady c.io.output_bytes c.data_session

abbrev pub start : Session → Drain
start d = record { session = d; have_new = false; latest_valid = false }

finish-image :
    (c : Channel) (region : List ℕ) (s : Drain) (o : Option Frame)
    → c.io.outputs ≡ some region
    → length region ≡ c.io.output_bytes
    → Outcome c.io.output_bytes (start c.data_session) o s
    → Keeps c.data_session s.session
    → image (finish_outputs region c.io s)
      ≡ cycle_image (timeout_cycles c.io.cycle_time_us) c.io.output_bytes o (image c)
unfolding finish_outputs
finish-image c region s none m l p k = ground (arith, zero_fill_whole region c.io.output_bytes l)
finish-image c region s (some f) m l p k = ground (
  arith,
  zero_fill_whole region c.io.output_bytes l,
  drop_all c.io.output_bytes region,
  append_nil f.payload,
)

pub mapped_outputs :
    (c : Channel) (region : List ℕ) → output_region c.io ≡ some region → c.io.outputs ≡ some region
unfolding output_region
mapped_outputs c region e = ground arith

running-IsOpen :
    (master_index : ℕ) (c : Channel) (region : List ℕ)
    → IsRunning c region
    → IsOpen (terms master_index c) c.data_session
running-IsOpen master_index c region r = record { peer = refl; session = refl; ready = r.ready }

apply_outputs-running :
    (master_index : ℕ) (queue : List Datagram) (c : Channel) (region : List ℕ)
    → IsRunning c region
    → apply_outputs master_index true queue c
      ≡ finish_outputs region c.io
          (drain master_index c.io.output_bytes (start c.data_session) queue)
unfolding apply_outputs
apply_outputs-running master_index queue c region r = ground (arith, r.mapped, r.opened)

-- A cycle of an open session with the lock free does to the output image what the machine does
-- with the newest of the accepted frames: its payload if it is marked valid, zeros if it is not;
-- with no accepted frame the watchdog counts.
pub apply_outputs-image :
    (master_index : ℕ) (queue : List Datagram) (c : Channel) (region : List ℕ)
    → IsRunning c region
    → image (apply_outputs master_index true queue c)
      ≡ cycle_image
          (timeout_cycles c.io.cycle_time_us)
          c.io.output_bytes
          (newest (
            accepted
              (terms master_index c)
              c.data_session.rx_seen
              c.data_session.rx_last_seq
              queue))
          (image c)
apply_outputs-image master_index queue c region r =
    let d =
      drain-Drained (terms master_index c) queue (start c.data_session)
        (running-IsOpen master_index c region r) in
    rw (apply_outputs-running master_index queue c region r) (
      finish-image c region (drain master_index c.io.output_bytes (start c.data_session) queue)
        (newest _) (mapped_outputs c region r.mapped) r.sized d.outcome d.keeps)

-- What stays the same of a master's side of the channel.
pub record SameIo (a b : Io) : Type 0 where
  pub soem_initialized : b.soem_initialized ≡ a.soem_initialized
  pub inputs : b.inputs ≡ a.inputs
  pub output_bytes : b.output_bytes ≡ a.output_bytes
  pub input_bytes : b.input_bytes ≡ a.input_bytes
  pub cycle_time_us : b.cycle_time_us ≡ a.cycle_time_us

-- The output region that a cycle leaves.
next_region : List ℕ → Io → Drain → List ℕ
next_region region io s =
    if s.have_new
    then if s.latest_valid
      then memcpy region s.session.rx_latest io.output_bytes
      else zero_fill region io.output_bytes
    else if ltb (timeout_cycles io.cycle_time_us) (inc32 s.session.cycles_since_output)
        && not s.session.outputs_zeroed
    then zero_fill region io.output_bytes
    else region

length-next_region :
    (region : List ℕ) (io : Io) (s : Drain)
    → length region ≡ io.output_bytes
    → io.output_bytes ≤ length s.session.rx_latest
    → length (next_region region io s) ≡ io.output_bytes
unfolding next_region
length-next_region region io s l h = ground (
  arith,
  length-memcpy region s.session.rx_latest io.output_bytes h,
  length-append (replicate io.output_bytes 0) (drop io.output_bytes region),
  length-replicate {A = ℕ} io.output_bytes 0,
  length-drop io.output_bytes region,
)

module _ (c : Channel) (region : List ℕ) (s : Drain) where
  finish_outputs-mapped :
      output_region c.io ≡ some region
      → output_region (finish_outputs region c.io s).io ≡ some (next_region region c.io s)
  unfolding finish_outputs next_region output_region
  finish_outputs-mapped m = ground arith

  finish_outputs-SameIo : SameIo c.io (finish_outputs region c.io s).io
  unfolding finish_outputs
  finish_outputs-SameIo = ground arith

  finish_outputs-opened : (finish_outputs region c.io s).data_session.is_open ≡ s.session.is_open
  unfolding finish_outputs
  finish_outputs-opened = ground arith

  finish_outputs-IsReady :
      (n : ℕ) → IsReady n s.session → IsReady n (finish_outputs region c.io s).data_session
  unfolding finish_outputs
  finish_outputs-IsReady n r = ground arith

-- A cycle with the lock free leaves a running master running, with the same sizes and cycle time.
pub apply_outputs-IsRunning :
    (master_index : ℕ) (queue : List Datagram) (c : Channel) (region : List ℕ)
    → IsRunning c region
    → let c' = apply_outputs master_index true queue c in
      (region' : List ℕ) × IsRunning c' region' × SameIo c.io c'.io
apply_outputs-IsRunning master_index queue c region r =
    let s = drain master_index c.io.output_bytes (start c.data_session) queue in
    let d =
      drain-Drained (terms master_index c) queue (start c.data_session)
        (running-IsOpen master_index c region r) in
    let io = finish_outputs-SameIo c region s in
    rw (apply_outputs-running master_index queue c region r) (
      next_region region c.io s,
      record {
        mapped = finish_outputs-mapped c region s r.mapped;
        sized =
            length-next_region region c.io s r.sized d.is_open.ready.latest ∙ sym io.output_bytes;
        opened = finish_outputs-opened c region s ∙ d.keeps.is_open ∙ r.opened;
        ready =
            rw io.output_bytes
              (finish_outputs-IsReady c region s c.io.output_bytes d.is_open.ready);
      },
      io,
    )
