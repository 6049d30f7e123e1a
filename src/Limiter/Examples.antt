-- ===== src/Limiter/Examples.antt =====
-- Runs of the limiter, and its theorems at concrete limiters.
use anvilkit_agent_api.Base.{◌≡◌, refl, true, false, [], ◌∷◌}
use anvilkit_agent_api.Base.Dict.{lookup, insert, erase}
use anvilkit_agent_api.Limiter.{StreamLimiter, new_stream_limiter, acquire, release}
use anvilkit_agent_api.Limiter.Leases.{
  admitted, Reach, here, next, Represents, fresh, Reach-fresh-Represents,
}

abbrev small : StreamLimiter
small = new_stream_limiter 3 2

abbrev one_open : StreamLimiter
one_open = (acquire small "acme/kim").0

admits : (acquire one_open "acme/kim").1 ≡ true
unfolding acquire new_stream_limiter lookup insert
admits = refl

refuses_third : (acquire (acquire one_open "acme/kim").0 "acme/kim").1 ≡ false
unfolding acquire new_stream_limiter lookup insert
refuses_third = refl

release_deletes : (release one_open "acme/kim").by_subject ≡ []
unfolding acquire release new_stream_limiter lookup insert erase
release_deletes = refl

first_step : Reach (fresh 3 2) (record { limiter = one_open; open_streams = "acme/kim" ∷ [] })
unfolding acquire new_stream_limiter lookup insert
first_step = next here (admitted "acme/kim" refl)

one_open-Represents : Represents one_open ("acme/kim" ∷ [])
one_open-Represents =
    Reach-fresh-Represents 3 2 (record { limiter = one_open; open_streams = "acme/kim" ∷ [] })
      first_step

Reach-fresh-Represents_example : Represents one_open ("acme/kim" ∷ [])
Reach-fresh-Represents_example =
    Reach-fresh-Represents 3 2 (record { limiter = one_open; open_streams = "acme/kim" ∷ [] })
      first_step
