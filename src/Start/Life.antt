-- ===== src/Start/Life.antt =====
-- Life: which server is started, stopped and deleted.
use tunator.Prelude.{◌≡◌, refl, ap, List, [], ◌∷◌, ◌++◌, Option, none, some, All}
use tunator.Text.{Text, ok}
use tunator.Start.{
  TunaServer, TunaTor, GetOpt, tuna_tor_init, created, started, wait_graceful, stopped, deleted,
  start, stop, destroy, main,
}
use tunator.Start.Options.{IsRead, last_argument, settings, args-settings}

-- A certificate with its key.
abbrev pub both : Option Text → Option Text → Option (Option Text × Option Text)
both none k = none
both (some c) none = none
both (some c) (some k) = some (some c, some k)

-- The server that the settings describe: with a certificate and a key it is one of `WssServer`.
abbrev pub described : TunaTor → TunaServer
described t = record {
  port = t.port;
  threads = t.threads;
  ssl = both t.cert t.key;
  address = t.address;
}

by_ssl :
    (c k : Option Text) (t : TunaTor)
    → t.tuna_server_ws ≡ none
    → t.tuna_server_wss ≡ none
    → (let t' = record t { cert = c; key = k } in
        (start t').0 ++ (stop (start t').1 ++ destroy (start t').1)
        ≡ created (described t')
          ∷ started (described t')
          ∷ wait_graceful (described t')
          ∷ stopped (described t')
          ∷ deleted (described t')
          ∷ [])
unfolding start stop destroy
by_ssl none k t ws wss = rw (wss) refl
by_ssl (some c) none t ws wss = rw (wss) refl
by_ssl (some c) (some k) t ws wss = rw (ws) refl

start-destroy :
    (c k : Option Text) (t : TunaTor)
    → t.tuna_server_ws ≡ none
    → t.tuna_server_wss ≡ none
    → (let t' = record t { cert = c; key = k } in
        (start t').0 ++ destroy (start t').1
        ≡ created (described t') ∷ started (described t') ∷ deleted (described t') ∷ [])
unfolding start stop destroy
start-destroy none k t ws wss = rw (wss) refl
start-destroy (some c) none t ws wss = rw (wss) refl
start-destroy (some c) (some k) t ws wss = rw (ws) refl

-- Where no server was made, start makes and starts the one server that the settings describe, a stop
-- then waits for it and stops it, and the destructor deletes it.
pub start-stop-destroy :
    (t : TunaTor)
    → t.tuna_server_ws ≡ none
    → t.tuna_server_wss ≡ none
    → (start t).0 ++ (stop (start t).1 ++ destroy (start t).1)
      ≡ created (described t)
        ∷ started (described t)
        ∷ wait_graceful (described t)
        ∷ stopped (described t)
        ∷ deleted (described t)
        ∷ []
unfolding start stop destroy
start-stop-destroy t ws wss = by_ssl t.cert t.key t ws wss

-- When the argument of every numeric option is a number, the program makes, starts and deletes one
-- server: its port, threads and address are the arguments of the last options of those names, or the
-- defaults, and it is one of `WssServer` exactly when both a certificate and a key are given.
pub main-described :
    (es : List GetOpt)
    → All IsRead es
    → main es ≡ (
        let t = settings (λ name. last_argument name es) tuna_tor_init in
        ok (created (described t) ∷ started (described t) ∷ deleted (described t) ∷ []))
unfolding main tuna_tor_init
main-described es h =
    let t = settings (λ name. last_argument name es) tuna_tor_init in
    rw (args-settings es h) (ap ok (start-destroy t.cert t.key t refl refl))
