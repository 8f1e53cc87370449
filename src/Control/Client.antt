-- ===== src/Control/Client.antt =====
-- src/control.c: what a request line does to its client. The line comes parsed, since the JSON parser
-- is not part of the program's own code; what `ecat_bus_command` and the log return is left out.
use ether_dog.Base.{
  ℕ, Bool, true, false, not, ◌||◌, ◌&&◌, ◌%◌, ◌+◌, ◌==◌, if◌then◌else◌, Option, none, some, List,
  [], ◌∷◌, length, get_or,
}

-- A request: `hello` with its token (`none`: not there, or not a string), the other commands that the
-- server answers itself, and all else, a line that does not parse included.
pub data Request : Type 0 where
  hello : Option (List ℕ) → Request
  logs shutdown other : Request

-- `client_t`: a dropped client has the descriptor -1.
pub record Client : Type 0 where
  pub dropped : Bool
  pub authenticated : Bool

pub data Reply : Type 0 where
  authentication_failed authenticate_first hello_ok logs_sent shutting_down command_result : Reply
  line_too_long : Reply

-- The loop of `constant_time_equals`: `diff` is tested against 0 only, so it is whether a bit is set,
-- and `a[i] ^ b[j]` sets one where the two differ. Past the end of `b` stands its NUL.
unfoldable pub differs : List ℕ → List ℕ → ℕ → Bool → Bool
differs [] b i diff = diff
differs (x ∷ xs) b i diff =
    differs xs b (i + 1)
      (diff || not (x == get_or b (i % (if length b == 0 then 1 else length b)) 0))

unfoldable pub constant_time_equals : List ℕ → List ℕ → Bool
unfolding differs
constant_time_equals a b = not (differs a b 0 (not (length a == length b)))

-- `need_auth`: a token is configured and not empty.
abbrev pub need_auth : Option (List ℕ) → Bool
need_auth none = false
need_auth (some t) = not (length t == 0)

unfoldable pub token_matches : Option (List ℕ) → Option (List ℕ) → Bool
unfolding constant_time_equals
token_matches none token = false
token_matches (some t) none = false
token_matches (some t) (some token) = constant_time_equals t token

-- What `drop_client` leaves.
abbrev pub dropped_client : Client
dropped_client = record { dropped = true; authenticated = false }

-- `handle_line`: the client afterwards, the reply, and whether the server exits.
unfoldable pub handle_line : Option (List ℕ) → Client → Request → Client × Reply × Bool
unfolding token_matches
handle_line token c (hello tok) =
    if need_auth token && not (token_matches tok token)
    then (dropped_client, authentication_failed, false)
    else (record c { authenticated = true }, hello_ok, false)
handle_line token c request =
    if need_auth token && not c.authenticated
    then (dropped_client, authenticate_first, false)
    else (c, reply_to request, exits request)
  where
    reply_to : Request → Reply
    reply_to logs = logs_sent
    reply_to shutdown = shutting_down
    reply_to _ = command_result

    exits : Request → Bool
    exits shutdown = true
    exits _ = false

-- The loop of `service_client` over the lines of a client: it ends when the client is dropped or the
-- server exits.
unfoldable pub handle_lines : Option (List ℕ) → Client → List Request → Client × List Reply × Bool
unfolding handle_line
handle_lines token c [] = (c, [], false)
handle_lines token c (r ∷ rs) =
    let (c', reply, exit_now) = handle_line token c r in
    let (c'', replies, exit') = handle_lines token c' rs in
    if exit_now || c'.dropped then (c', reply ∷ [], exit_now) else (c'', reply ∷ replies, exit')
