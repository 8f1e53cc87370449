-- ===== src/Data/Calls.antt =====
-- The calls that the control thread and the bus thread make on a channel, in any order.
use ether_dog.Base.{
  ℕ, Bool, true, false, List, [], ◌∷◌, Option, none, some, ◌≡◌, refl, sym, ◌∙◌, arith, Option-cases,
  inl, inr, Bool-cases, ◌||◌,
}
use mathlib.Core.Bool.{false≢true}
use ether_dog.Dgram.{Libc, Address, Datagram}
use ether_dog.Dgram.Loopback.{IsLocal, parse-IsLocal}
use ether_dog.Data.Session.{
  open_to, client_address, data_null, opened, Session, Io, Channel, Opening, alloc_buffers,
  free_buffers, close, open_session,
}
use ether_dog.Data.Outputs.{
  Drain, drain, apply_outputs, finish_outputs, apply_closed, judge, take_frame, drop_frame, receive,
  drain_step,
}
use ether_dog.Data.Inputs.{Exchange, publish_inputs}

pub data Call : Type 0 where
  alloc : Bool → Call
  free : Call
  opens : Opening → Call
  closes : Call
  applies : ℕ → Bool → List Datagram → Call
  publishes : ℕ → Exchange → Bool → Bool → Call

abbrev or_same : Session → Option Session → Session
or_same d none = d
or_same d (some e) = e

unfoldable pub call : Libc → Call → Channel → Channel
call l (alloc memory) c = record c {
  data_session = or_same c.data_session (alloc_buffers memory c.io c.data_session);
}
call l free c = record c { data_session = free_buffers c.data_session }
call l (opens o) c = record c { data_session = (open_session l o c.data_session).0 }
call l closes c = record c { data_session = close c.data_session }
call l (applies i locked queue) c = apply_outputs i locked queue c
call l (publishes i x locked sent) c = record c {
  data_session = (publish_inputs i x locked sent c.io c.data_session).0;
}

unfoldable pub calls : Libc → List Call → Channel → Channel
calls l [] c = c
calls l (a ∷ rest) c = calls l rest (call l a c)

-- An open session has a socket, and talks to a loopback address or a Unix path only.
abbrev pub IsLocalSession : Session → Type 0
IsLocalSession d = d.is_open ≡ true → IsLocal d.peer × ((s : ℕ) × (d.fd ≡ some s))

-- The fields that decide it.
record SameEnd (a b : Session) : Type 0 where
  is_open : b.is_open ≡ a.is_open
  peer : b.peer ≡ a.peer
  fd : b.fd ≡ a.fd

SameEnd-IsLocalSession : (a b : Session) → SameEnd a b → IsLocalSession a → IsLocalSession b
SameEnd-IsLocalSession a b e s h =
    let (p, (f, q)) = s (sym e.is_open ∙ h) in (rw e.peer p, (f, e.fd ∙ q))

open_to-IsLocalSession :
    (o : Opening) (a : Address) (d : Session) → IsLocal a → IsLocalSession (open_to o a d).0
unfolding open_to close opened
open_to-IsLocalSession o a d l h = elim (Bool-cases (data_null d.rx_buf || data_null d.tx_buf)) [
  | inl missing ↦ absurd (false≢true (rw (missing, open_to) at h))
  | inr there ↦ elim (Option-cases o.socket) [
    | inl e ↦ absurd (false≢true (rw (there, e, open_to) at h))
    | inr ((f, path), e) ↦ rw (there, e, open_to) (l, (f, refl))
  ]
]

client_address-IsLocal :
    (l : Libc) (e : Option (List ℕ)) (a : Address) → client_address l e ≡ some a → IsLocal a
unfolding client_address
client_address-IsLocal l none a h = absurd (ground arith)
client_address-IsLocal l (some spec) a h = parse-IsLocal l spec a h

open_session-IsLocalSession :
    (l : Libc) (o : Opening) (d : Session)
    → IsLocalSession d
    → IsLocalSession (open_session l o d).0
unfolding open_session
open_session-IsLocalSession l o d s = elim (Option-cases (client_address l o.client_endpoint)) [
  | inl e ↦ rw (e, open_session) s
  | inr (a, e) ↦
      rw (e, open_session)
        (open_to-IsLocalSession o a d (client_address-IsLocal l o.client_endpoint a e))
]

drain_step-SameEnd :
    (i n : ℕ) (g : Datagram) (s : Drain) → SameEnd s.session (drain_step i n s g).session
unfolding drain_step receive judge take_frame drop_frame
drain_step-SameEnd i n g s = ground arith

drain-SameEnd :
    (i n : ℕ) (gs : List Datagram) (s : Drain) → SameEnd s.session (drain i n s gs).session
unfolding drain
drain-SameEnd i n [] s = record { is_open = refl; peer = refl; fd = refl }
drain-SameEnd i n (g ∷ gs) s =
    let one = drain_step-SameEnd i n g s in
    let rest = drain-SameEnd i n gs (drain_step i n s g) in
    record {
      is_open = rest.is_open ∙ one.is_open;
      peer = rest.peer ∙ one.peer;
      fd = rest.fd ∙ one.fd;
    }

apply_outputs-SameEnd :
    (i : ℕ) (locked : Bool) (gs : List Datagram) (c : Channel)
    → SameEnd c.data_session (apply_outputs i locked gs c).data_session
unfolding apply_outputs apply_closed finish_outputs
apply_outputs-SameEnd i locked gs c = ground (
  arith,
  drain-SameEnd i c.io.output_bytes gs
      (record { session = c.data_session; have_new = false; latest_valid = false }),
)

publish_inputs-SameEnd :
    (i : ℕ) (x : Exchange) (locked sent : Bool) (io : Io) (d : Session)
    → SameEnd d (publish_inputs i x locked sent io d).0
unfolding publish_inputs
publish_inputs-SameEnd i x locked sent io d = ground arith

alloc_buffers-SameEnd :
    (memory : Bool) (io : Io) (d : Session) → SameEnd d (or_same d (alloc_buffers memory io d))
unfolding alloc_buffers
alloc_buffers-SameEnd memory io d = ground arith

call-IsLocalSession :
    (l : Libc) (a : Call) (c : Channel)
    → IsLocalSession c.data_session
    → IsLocalSession (call l a c).data_session
unfolding call free_buffers close
call-IsLocalSession l (alloc memory) c s =
    SameEnd-IsLocalSession _ _ (alloc_buffers-SameEnd memory c.io c.data_session) s
call-IsLocalSession l free c s = s
call-IsLocalSession l (opens o) c s = open_session-IsLocalSession l o c.data_session s
call-IsLocalSession l closes c s = λ h. absurd (false≢true h)
call-IsLocalSession l (applies i locked queue) c s =
    SameEnd-IsLocalSession _ _ (apply_outputs-SameEnd i locked queue c) s
call-IsLocalSession l (publishes i x locked sent) c s =
    SameEnd-IsLocalSession _ _ (publish_inputs-SameEnd i x locked sent c.io c.data_session) s

-- No call opens a session towards anything but a loopback address or a Unix path, or without a
-- socket: from a channel that is so, every sequence of calls leads to one that is so.
pub calls-IsLocalSession :
    (l : Libc) (cs : List Call) (c : Channel)
    → IsLocalSession c.data_session
    → IsLocalSession (calls l cs c).data_session
unfolding calls
calls-IsLocalSession l [] c s = s
calls-IsLocalSession l (a ∷ cs) c s =
    calls-IsLocalSession l cs (call l a c) (call-IsLocalSession l a c s)
