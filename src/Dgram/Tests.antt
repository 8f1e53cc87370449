-- ===== src/Dgram/Tests.antt =====
-- A run of the endpoint parser.
use ether_dog.Base.{◌≡◌, refl, some, none, [], ◌∷◌}
use ether_dog.Dgram.{unix, Libc, parse, strip, parse_unix}

abbrev no_libc : Libc
no_libc = record { strtol = λ s. none; inet_pton = λ s. none }

-- "unix:/x"
unix_parsed :
    parse no_libc (117 ∷ 110 ∷ 105 ∷ 120 ∷ 58 ∷ 47 ∷ 120 ∷ []) ≡ some (unix (47 ∷ 120 ∷ []))
unfolding parse strip parse_unix
unix_parsed = refl
