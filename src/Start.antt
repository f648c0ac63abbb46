-- ===== src/Start.antt =====
-- tunator.hpp, tunator.cpp and main.cpp: the options, and the server that is started with them. The
-- options arrive as `getopt_long` hands them out. `HashStringToInt` is the server's.
pub mod Options
pub mod Life
mod Tests
use tunator.Prelude.{
  ℕ, suc, ◌-◌, ◌%◌, Bool, true, false, ◌==◌, List, [], ◌∷◌, ◌++◌, Option, none, some, ℤ, pos,
  negsuc, size_of_int, if◌then◌else◌,
}
use tunator.Text.{Text, codes, Outcome, ok, err, thrown, stoi, ◌>>=◌}
use tunator.Server.{hash_string_to_int}

-- A `TunaServer` with its socket server: of `WssServer`, or of `WsServer`.
pub record TunaServer : Type 0 where
  pub port : ℕ
  pub threads : ℕ
  -- the certificate and the key that a `WssServer` is given
  pub ssl : Option (Option Text × Option Text)
  pub address : Text

pub record TunaTor : Type 0 where
  pub tuna_server_wss : Option TunaServer
  pub tuna_server_ws : Option TunaServer
  pub mtu : ℕ
  pub q_size : ℕ
  pub address : Text
  pub port : ℕ
  pub threads : ℕ
  pub cert : Option Text
  pub key : Option Text
  pub stat_frequence : ℕ

unfoldable pub tuna_tor_init : TunaTor
tuna_tor_init = record {
  tuna_server_wss = none;
  tuna_server_ws = none;
  mtu = 1500;
  q_size = 64;
  address = codes "127.0.0.1";
  port = 4711;
  threads = 4;
  cert = none;
  key = none;
  stat_frequence = 5000;
}

-- The rows of `long_options`.
pub data LongOption : Type 0 where
  mtu_option qsize_option address_option port_option : LongOption
  threads_option cert_option key_option stat_frequence_option : LongOption

unfoldable pub option_name : LongOption → Text
option_name mtu_option = codes "mtu"
option_name qsize_option = codes "qsize"
option_name address_option = codes "address"
option_name port_option = codes "port"
option_name threads_option = codes "threads"
option_name cert_option = codes "cert"
option_name key_option = codes "key"
option_name stat_frequence_option = codes "statFrequence"

-- A call of `getopt_long`: a long option with its argument, or another result than 0.
pub data GetOpt : Type 0 where
  long_option : LongOption → Text → GetOpt
  not_long : GetOpt

-- An `int` that is stored as `unsigned short`.
abbrev pub short_of_int : ℤ → ℕ
short_of_int (pos n) = n % 65536
short_of_int (negsuc n) = (65536 - suc n % 65536) % 65536

-- The `switch` on the hash of the option's name.
unfoldable pub set_option : Text → Text → TunaTor → Outcome TunaTor
unfolding hash_string_to_int
set_option name optarg ret =
    let hash = hash_string_to_int name in
    if hash == hash_string_to_int (codes "mtu")
    then stoi optarg >>= (λ z. ok (record ret { mtu = short_of_int z }))
    else if hash == hash_string_to_int (codes "qsize")
    then stoi optarg >>= (λ z. ok (record ret { q_size = short_of_int z }))
    else if hash == hash_string_to_int (codes "address")
    then ok (record ret { address = optarg })
    else if hash == hash_string_to_int (codes "port")
    then stoi optarg >>= (λ z. ok (record ret { port = short_of_int z }))
    else if hash == hash_string_to_int (codes "threads")
    then stoi optarg >>= (λ z. ok (record ret { threads = size_of_int z }))
    else if hash == hash_string_to_int (codes "statFrequence")
    then stoi optarg >>= (λ z. ok (record ret { stat_frequence = size_of_int z }))
    else if hash == hash_string_to_int (codes "cert")
    then ok (record ret { cert = some optarg })
    else if hash == hash_string_to_int (codes "key")
    then ok (record ret { key = some optarg })
    else ok ret

-- The loop, until `getopt_long` returns -1 at the end of the list.
unfoldable pub args_loop : List GetOpt → TunaTor → Outcome TunaTor
unfolding set_option option_name
args_loop [] ret = ok ret
args_loop (not_long ∷ es) ret = args_loop es ret
args_loop (long_option o optarg ∷ es) ret =
    set_option (option_name o) optarg ret >>= (λ next. args_loop es next)

unfoldable pub args : List GetOpt → Outcome TunaTor
unfolding args_loop tuna_tor_init
args es = args_loop es tuna_tor_init

unfoldable pub is_ssl : TunaTor → Bool
is_ssl t = elim t.cert [ none ↦ false | some c ↦ elim t.key [ none ↦ false | some k ↦ true ] ]

-- What is done with a server.
pub data Call : Type 0 where
  created started wait_graceful stopped deleted : TunaServer → Call

-- `start`, with the calls; the server runs until `started` returns.
unfoldable pub start : TunaTor → List Call × TunaTor
unfolding is_ssl
start t =
    let server : Option (Option Text × Option Text) → TunaServer =
      λ ssl. record { port = t.port; threads = t.threads; ssl = ssl; address = t.address } in
    let wss = server (some (t.cert, t.key)) in
    let ws = server none in
    if is_ssl t
    then (created wss ∷ started wss ∷ [], record t { tuna_server_wss = some wss })
    else (created ws ∷ started ws ∷ [], record t { tuna_server_ws = some ws })

abbrev stop_one : Option TunaServer → List Call
stop_one none = []
stop_one (some s) = wait_graceful s ∷ stopped s ∷ []

unfoldable pub stop : TunaTor → List Call
stop t = stop_one t.tuna_server_ws ++ stop_one t.tuna_server_wss

abbrev delete_one : Option TunaServer → List Call
delete_one none = []
delete_one (some s) = deleted s ∷ []

-- `~TunaTor`
unfoldable pub destroy : TunaTor → List Call
destroy t = delete_one t.tuna_server_ws ++ delete_one t.tuna_server_wss

-- `main`, from the options on: the calls, or the exception that ends it.
unfoldable pub main : List GetOpt → Outcome (List Call)
unfolding args start destroy
main es = args es >>= (λ t. let (calls, t') = start t in ok (calls ++ destroy t'))
