-- ===== src/Data/Drain.antt =====
-- The whole receive loop against `Frames`.
use ether_dog.Base.{
  take-append, take-memcpy, length-memcpy, ◌∙◌, ℕ, ◌+◌, Bool, true, List, [], ◌∷◌, Option, none,
  some, drop, take, length, ◌≡◌, refl, arith, ◌≤◌, memcpy, min, Option-cases, inl, inr, take_all,
  length-drop, drop_append_le,
}
use ether_dog.Protocol.{Header, frame_header_size}
use ether_dog.Dgram.{Datagram}
use ether_dog.Data.Session.{Session}
use ether_dog.Data.Outputs.{Drain, drop_frame, take_frame, receive, drain}
use ether_dog.Data.Frames.{later, Frame, Terms, frame?, accepted, newest}
use ether_dog.Data.Receive.{IsOpen, receive-IsReady}
use ether_dog.Data.Step.{frame_of, drain_step-none, drain_step-some, length-frame?, received}

-- What the loop has made of its datagrams, by the newest frame among them.
abbrev pub Outcome : ℕ → Drain → Option Frame → Drain → Type 0
Outcome n s none s' =
    (s'.have_new ≡ s.have_new)
    × (s'.latest_valid ≡ s.latest_valid)
    × (s'.session.rx_latest ≡ s.session.rx_latest)
    × (s'.session.rx_seen ≡ s.session.rx_seen)
    × (s'.session.rx_last_seq ≡ s.session.rx_last_seq)
Outcome n s (some f) s' =
    (s'.have_new ≡ true)
    × (s'.latest_valid ≡ f.valid)
    × (f.valid ≡ true → take n s'.session.rx_latest ≡ f.payload)
    × (s'.session.rx_seen ≡ true)
    × (s'.session.rx_last_seq ≡ f.sequence)

-- What the loop leaves alone.
pub record Keeps (d d' : Session) : Type 0 where
  pub is_open : d'.is_open ≡ d.is_open
  pub session : d'.session ≡ d.session
  pub peer : d'.peer ≡ d.peer
  pub outputs_zeroed : d'.outputs_zeroed ≡ d.outputs_zeroed
  pub cycles : d'.cycles_since_output ≡ d.cycles_since_output
  pub trips : d'.watchdog_trips ≡ d.watchdog_trips

Keeps-trans : {a b c : Session} → Keeps a b → Keeps b c → Keeps a c
Keeps-trans k l = record {
  is_open = l.is_open ∙ k.is_open;
  session = l.session ∙ k.session;
  peer = l.peer ∙ k.peer;
  outputs_zeroed = l.outputs_zeroed ∙ k.outputs_zeroed;
  cycles = l.cycles ∙ k.cycles;
  trips = l.trips ∙ k.trips;
}

module _ (t : Terms) (s : Drain) (g : Datagram) (o : IsOpen t s.session) where
  -- The received payload in the buffer, with what stands behind it.
  abbrev payload_bytes : List ℕ
  payload_bytes = drop frame_header_size (receive s.session g).rx_buf

  payload_bytes-le : t.output_bytes ≤ length payload_bytes
  payload_bytes-le =
      let r = receive-IsReady t.output_bytes s.session g o.ready in
      omega (arith, r.buffer, length-drop frame_header_size (receive s.session g).rx_buf)

  take_payload :
      length g.bytes ≡ frame_header_size + t.output_bytes
      → take t.output_bytes (memcpy s.session.rx_latest payload_bytes t.output_bytes)
        ≡ drop frame_header_size g.bytes
  unfolding receive
  take_payload l =
      let whole : min (length g.bytes) s.session.rx_buf_size ≡ length g.bytes =
        omega (arith, o.ready.size) in
      rw (take-memcpy s.session.rx_latest payload_bytes t.output_bytes payload_bytes-le) (
        rw (whole, take_all (length g.bytes) g.bytes (omega arith))
          (rw (drop_append_le g.bytes (drop (length g.bytes) s.session.rx_buf) 24 (omega arith)) (
            take-append (drop 24 g.bytes) _ t.output_bytes
              (omega (arith, length-drop 24 g.bytes)))))

  drop-IsOpen : IsOpen t (drop_frame (received t s g o)).session
  unfolding drop_frame receive
  drop-IsOpen =
      let r = receive-IsReady t.output_bytes s.session g o.ready in
      record {
        peer = o.peer;
        session = o.session;
        ready = record { size = r.size; buffer = r.buffer; latest = r.latest };
      }

  drop-Keeps : Keeps s.session (drop_frame (received t s g o)).session
  unfolding drop_frame receive
  drop-Keeps = record {
    is_open = refl;
    session = refl;
    peer = refl;
    outputs_zeroed = refl;
    cycles = refl;
    trips = refl;
  }

  take-IsOpen :
      (h : Header)
      → IsOpen t (take_frame t.master_index t.output_bytes (received t s g o) h).session
  unfolding take_frame receive
  take-IsOpen h =
      let r = receive-IsReady t.output_bytes s.session g o.ready in
      record {
        peer = o.peer;
        session = o.session;
        ready = record {
          size = r.size;
          buffer = r.buffer;
          latest = ground (
            arith,
            o.ready.latest,
            length-memcpy s.session.rx_latest payload_bytes t.output_bytes payload_bytes-le,
          );
        };
      }

  take-Keeps :
      (h : Header)
      → Keeps s.session (take_frame t.master_index t.output_bytes (received t s g o) h).session
  unfolding take_frame receive
  take-Keeps h = record {
    is_open = refl;
    session = refl;
    peer = refl;
    outputs_zeroed = refl;
    cycles = refl;
    trips = refl;
  }

  take-Outcome :
      (h : Header)
      → length g.bytes ≡ frame_header_size + t.output_bytes
      → Outcome t.output_bytes s
          (some (frame_of h g))
          (take_frame t.master_index t.output_bytes (received t s g o) h)
  unfolding take_frame receive
  take-Outcome h l = (refl, refl, λ v. rw v (take_payload l), refl, refl)

-- A frame found first, and then the rest of the queue.
Outcome-later :
    (n : ℕ) (f : Frame) (o : Option Frame) (a b c : Drain)
    → Outcome n a (some f) b
    → Outcome n b o c
    → Outcome n a (later f o) c
Outcome-later n f none a b c p q =
    (q.0 ∙ p.0, q.1 ∙ p.1, λ v. rw (q.2) (p.2 v), q.3 ∙ p.3, q.4 ∙ p.4)
Outcome-later n f (some g) a b c p q = q

-- What the loop does with a queue, on a session that is open on the terms `t`.
pub record Drained (t : Terms) (s : Drain) (fs : List Frame) (s' : Drain) : Type 0 where
  pub outcome : Outcome t.output_bytes s (newest fs) s'
  pub keeps : Keeps s.session s'.session
  pub is_open : IsOpen t s'.session

abbrev pub accepted_by : Terms → Session → List Datagram → List Frame
accepted_by t d gs = accepted t d.rx_seen d.rx_last_seq gs

pub accepted-none :
    (t : Terms) (seen : Bool) (last : ℕ) (g : Datagram) (gs : List Datagram)
    → frame? t seen last g ≡ none
    → accepted t seen last (g ∷ gs) ≡ accepted t seen last gs
unfolding accepted
accepted-none t seen last g gs e = ground arith

pub accepted-some :
    (t : Terms) (seen : Bool) (last : ℕ) (g : Datagram) (gs : List Datagram) (f : Frame)
    → frame? t seen last g ≡ some f
    → accepted t seen last (g ∷ gs) ≡ f ∷ accepted t true f.sequence gs
unfolding accepted
accepted-some t seen last g gs f e = ground arith

drop-Drained :
    (t : Terms) (s : Drain) (g : Datagram) (o : IsOpen t s.session) (fs : List Frame) (s' : Drain)
    → Drained t (drop_frame (received t s g o)) fs s'
    → Drained t s fs s'
unfolding drop_frame receive
drop-Drained t s g o fs s' d = record {
  outcome = drop-Outcome (newest fs) d.outcome;
  keeps = Keeps-trans (drop-Keeps t s g o) d.keeps;
  is_open = d.is_open;
}
  where
    drop-Outcome :
        (f : Option Frame)
        → Outcome t.output_bytes (drop_frame (received t s g o)) f s'
        → Outcome t.output_bytes s f s'
    drop-Outcome none p = p
    drop-Outcome (some f) p = p

take-Drained :
    (t : Terms) (s : Drain) (g : Datagram) (o : IsOpen t s.session) (h : Header) (fs : List Frame)
    (s' : Drain)
    → length g.bytes ≡ frame_header_size + t.output_bytes
    → Drained t (take_frame t.master_index t.output_bytes (received t s g o) h) fs s'
    → Drained t s (frame_of h g ∷ fs) s'
unfolding newest
take-Drained t s g o h fs s' l d = record {
  outcome =
      Outcome-later t.output_bytes (frame_of h g) (newest fs) s
        (take_frame t.master_index t.output_bytes (received t s g o) h) s'
        (take-Outcome t s g o h l) d.outcome;
  keeps = Keeps-trans (take-Keeps t s g o h) d.keeps;
  is_open = d.is_open;
}

-- The loop ends with the outcome of the newest frame that it accepts.
pub drain-Drained :
    (t : Terms) (gs : List Datagram) (s : Drain)
    → IsOpen t s.session
    → Drained t s (accepted_by t s.session gs) (drain t.master_index t.output_bytes s gs)
unfolding drain drop_frame take_frame receive
drain-Drained t [] s o = record {
  outcome = unfold accepted newest in (refl, refl, refl, refl, refl);
  keeps = record {
    is_open = refl;
    session = refl;
    peer = refl;
    outputs_zeroed = refl;
    cycles = refl;
    trips = refl;
  };
  is_open = o;
}
drain-Drained t (g ∷ gs) s o =
    elim (Option-cases (frame? t s.session.rx_seen s.session.rx_last_seq g)) [
      | inl e ↦
          rw
            (
              accepted-none t s.session.rx_seen s.session.rx_last_seq g gs e,
              drain_step-none t s g o e,
            )
            (drop-Drained t s g o _ _
              (drain-Drained t gs (drop_frame (received t s g o)) (drop-IsOpen t s g o)))
      | inr (f, e) ↦
          let (h, step, is) = drain_step-some t s g o f e in
          rw (accepted-some t s.session.rx_seen s.session.rx_last_seq g gs f e, step, is)
            (take-Drained t s g o h _ _
              (length-frame? t s.session.rx_seen s.session.rx_last_seq g f e)
              (drain-Drained t gs (take_frame t.master_index t.output_bytes (received t s g o) h)
                (take-IsOpen t s g o h)))
    ]
