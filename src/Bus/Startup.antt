-- ===== src/Bus/Startup.antt =====
-- internal/bus/nats.go: what runs when `NewNATSBus` returns.
use snipr.Base.{◌↔◌, ◌≡◌, true, false, Result, ok, err, arith}
use snipr.Bus.{
  not_ready, Config, with_defaults, chat_stream, features_stream, Nats, Running, BusError, NatsBus,
  new_nats_bus,
}

-- Every call of the library succeeds.
abbrev pub Starts : Nats → Config → Type 0
Starts n cfg =
    (n.creates ≡ true)
    × (n.gets_ready ≡ true)
    × (n.connects ≡ true)
    × (n.has_jetstream ≡ true)
    × (n.adds (chat_stream (with_defaults cfg)) ≡ true)
    × (n.adds (features_stream (with_defaults cfg)) ≡ true)

-- What `NewNATSBus` leaves running, and its result.
abbrev pub Answers : Nats → Config → Running × Result BusError NatsBus → Type 0
Answers n cfg (r, ok b) =
    Starts n cfg
    × (r ≡ record { server = true; connection = true })
    × (b.chat_stream_name ≡ (with_defaults cfg).chat_stream_name)
    × (b.features_stream_name ≡ (with_defaults cfg).features_stream_name)
Answers n cfg (r, err e) =
    (¬ Starts n cfg) × (r.connection ≡ false) × ((r.server ≡ true) ↔ (e ≡ not_ready))

-- However the NATS library answers: a bus comes back exactly when every call succeeds, with the
-- server and the connection running and the names of the streams, defaults included; with an error
-- no connection is left, and a server only where it did not become ready in time.
pub new_nats_bus-Answers : (n : Nats) (cfg : Config) → Answers n cfg (new_nats_bus n cfg)
unfolding new_nats_bus
new_nats_bus-Answers n cfg = ground arith
