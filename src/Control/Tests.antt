-- ===== src/Control/Tests.antt =====
-- Runs of the authentication.
use ether_dog.Base.Results.{All, all_none, all_more}
use ether_dog.Control.Client.{Request, hello, other, logs_sent, token_matches, Client, logs}
use ether_dog.Control.Framing.{Connection, service_client, dropped_connection}
use ether_dog.Control.Serving.{IsPlain}
use ether_dog.Control.Stream.{service_client-append}
use ether_dog.Control.Requests.{requests, service_client-refused}
use ether_dog.Control.Auth.{none_matches, is_refusal}
use ether_dog.Base.{
  none, ◌==◌, if◌then◌else◌, ◌++◌, ℕ, List, true, false, ◌≡◌, refl, some, [], ◌∷◌, map,
}

abbrev token_12 : List ℕ
token_12 = 1 ∷ 2 ∷ []

abbrev token_13 : List ℕ
token_13 = 1 ∷ 3 ∷ []

abbrev new_client : Client
new_client = record { dropped = false; authenticated = false }

-- A line that begins with 'h' is a `hello` without a token, any other asks for the log.
abbrev read_request : List ℕ → Request
read_request [] = other
read_request (b ∷ bs) = if b == b'h' then hello none else logs

abbrev idle : Connection
idle = record { client = new_client; buf = [] }

-- "l\r\nl"
abbrev first_chunk : List ℕ
first_chunk = 108 ∷ 13 ∷ 10 ∷ 108 ∷ []

abbrev waiting : Connection
waiting = record { client = new_client; buf = 108 ∷ [] }

first_served : service_client read_request none idle first_chunk ≡ (waiting, logs_sent ∷ [], false)
unfolding service_client
first_served = refl

service_client-append_example :
    All IsPlain waiting.buf
    × (service_client read_request none idle (first_chunk ++ (10 ∷ [])) ≡ (
      (service_client read_request none waiting (10 ∷ [])).0,
      logs_sent ∷ (service_client read_request none waiting (10 ∷ [])).1,
      (service_client read_request none waiting (10 ∷ [])).2,
    ))
service_client-append_example =
    service_client-append read_request none idle waiting 108 (13 ∷ 10 ∷ 108 ∷ []) 10 []
      (logs_sent ∷ []) all_none
      (all_more refl (all_more refl (all_more refl (all_more refl all_none)))) first_served refl

two_requests : requests read_request [] (108 ∷ 10 ∷ 104 ∷ 10 ∷ []) ≡ logs ∷ hello none ∷ []
unfolding requests
two_requests = refl

none_match : none_matches (some token_12) (logs ∷ hello none ∷ []) ≡ true
unfolding token_matches
none_match = refl

service_client-refused_example :
    ((service_client read_request (some token_12) idle (108 ∷ 10 ∷ 104 ∷ 10 ∷ [])).0
      ≡ dropped_connection)
    × (map is_refusal
          (service_client read_request (some token_12) idle (108 ∷ 10 ∷ 104 ∷ 10 ∷ [])).1
        ≡ true ∷ [])
    × ((service_client read_request (some token_12) idle (108 ∷ 10 ∷ 104 ∷ 10 ∷ [])).2 ≡ false)
service_client-refused_example =
    service_client-refused read_request (some token_12) idle 108 (10 ∷ 104 ∷ 10 ∷ []) logs
      (hello none ∷ []) refl refl refl two_requests none_match
