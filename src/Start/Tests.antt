-- ===== src/Start/Tests.antt =====
-- Command lines at concrete inputs.
use tunator.Prelude.{◌≡◌, refl, List, [], ◌∷◌, none, pos}
use tunator.Text.{codes, ok, stoi, text_eq}
use tunator.Start.{
  option_name, GetOpt, long_option, not_long, port_option, cert_option, args, main, tuna_tor_init,
  created, started, deleted,
}
use tunator.Start.Options.{last_argument, settings, args-settings}
use tunator.Start.Life.{described, main-described}

-- --port 80 --cert c --unknown --port 70000
abbrev line : List GetOpt
line =
    long_option port_option (codes "80")
    ∷ long_option cert_option (codes "c")
    ∷ not_long
    ∷ long_option port_option (codes "70000")
    ∷ []

stoi_80 : stoi (codes "80") ≡ ok (pos 80)
unfolding stoi
stoi_80 = refl

stoi_70000 : stoi (codes "70000") ≡ ok (pos 70000)
unfolding stoi
stoi_70000 = refl

args-settings_example : args line ≡ ok (settings (λ name. last_argument name line) tuna_tor_init)
args-settings_example =
    args-settings line ((pos 80, stoi_80), (tt, (tt, ((pos 70000, stoi_70000), tt))))

main-described_example : main line ≡ (
    let t = settings (λ name. last_argument name line) tuna_tor_init in
    ok (created (described t) ∷ started (described t) ∷ deleted (described t) ∷ []))
main-described_example =
    main-described line ((pos 80, stoi_80), (tt, (tt, ((pos 70000, stoi_70000), tt))))

-- A port above 65535 is another port, and without a key there is no TLS.
narrowed :
    described (settings (λ name. last_argument name line) tuna_tor_init)
    ≡ record { port = 4464; threads = 4; ssl = none; address = codes "127.0.0.1" }
unfolding last_argument tuna_tor_init text_eq option_name stoi
narrowed = refl
