-- ===== src/Control/Framing.antt =====
-- src/control.c: how the bytes that a client sends become request lines.
use ether_dog.Base.{
  ◌*◌, ℕ, Bool, true, false, ◌||◌, ◌-◌, leb, ◌==◌, if◌then◌else◌, Option, List, [], ◌∷◌, ◌++◌,
  length,
}
use ether_dog.Control.Client.{Request, Client, Reply, line_too_long, handle_line, dropped_client}

-- MAX_LINE
abbrev pub max_line : ℕ
max_line = 64 * 1024

-- `client_t` with the bytes that its buffer holds.
pub record Connection : Type 0 where
  pub client : Client
  pub buf : List ℕ

-- `drop_client`
abbrev pub dropped_connection : Connection
dropped_connection = record { client = dropped_client; buf = [] }

-- What the loop of `service_client` leaves: the bytes from `start` on are `rest`.
pub record Served : Type 0 where
  pub client : Client
  pub replies : List Reply
  pub exit_now : Bool
  pub rest : List ℕ

-- A line without the '\r' at its end.
abbrev pub strip_line : List ℕ → List ℕ
strip_line [] = []
strip_line (b ∷ []) = if b == 13 then [] else b ∷ []
strip_line (b ∷ c ∷ s) = b ∷ strip_line (c ∷ s)

-- The loop ends when the client is dropped or the server exits.
abbrev pub is_over : Client → Bool → Bool
is_over c exit_now = exit_now || c.dropped

abbrev pub reply_first : List Reply → Served → Served
reply_first replies o = record o { replies = replies ++ o.replies }

-- cJSON_Parse with the tests of the command, and the token of the server.
module _ (parse : List ℕ → Request) (token : Option (List ℕ)) where
  -- The body of the loop for a line: an empty one is skipped.
  unfoldable pub serve_line : Client → List ℕ → Client × List Reply × Bool
  unfolding handle_line
  serve_line c line =
      let (c', reply, exit_now) = handle_line token c (parse (strip_line line)) in
      if length (strip_line line) == 0 then (c, [], false) else (c', reply ∷ [], exit_now)

  -- The loop, with the bytes of the current line before the text. `strchr` finds no newline behind a
  -- NUL.
  unfoldable pub serve : Client → List ℕ → List ℕ → Served
  unfolding serve_line
  serve c line [] = record { client = c; replies = []; exit_now = false; rest = line }
  serve c line (b ∷ bs) = elim (b == 0) [
    | true ↦ record { client = c; replies = []; exit_now = false; rest = line ++ (b ∷ bs) }
    | false ↦ elim (b == 10) [
      | false ↦ serve c (line ++ (b ∷ [])) bs
      | true ↦
          let (c', replies, exit_now) = serve_line c line in
          elim (is_over c' exit_now) [
            | true ↦ record { client = c'; replies = replies; exit_now = exit_now; rest = bs }
            | false ↦ reply_first replies (serve c' [] bs)
          ]
    ]
  ]

  -- `service_client`, when recv gives `chunk`: the connection afterwards, the replies, and whether the
  -- server exits. An empty chunk is the end of the stream or an error.
  unfoldable pub service_client : Connection → List ℕ → Connection × List Reply × Bool
  unfolding serve
  service_client k [] = (dropped_connection, [], false)
  service_client k (b ∷ bs) =
      let o = serve k.client [] (k.buf ++ (b ∷ bs)) in
      if o.client.dropped
      then (dropped_connection, o.replies, o.exit_now)
      else if leb (max_line - 1) (length o.rest)
      then (dropped_connection, o.replies ++ (line_too_long ∷ []), o.exit_now)
      else (record { client = o.client; buf = o.rest }, o.replies, o.exit_now)
