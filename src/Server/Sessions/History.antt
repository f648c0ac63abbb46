-- ===== src/Server/Sessions/History.antt =====
-- History: any sequence of messages and closings.
use tunator.Prelude.{◌≡◌, refl, ap, ◌∙◌, Bool, false, List, [], ◌∷◌, some, All, map}
use tunator.Text.{Text}
use tunator.Route.Library.{IpLibrary}
use tunator.Packet.Ring.{Ring}
use tunator.Device.Command.{SystemCmd}
use tunator.Device.Json.{JsonLibrary, finished, raised}
use tunator.Device.IfAddrs.{IfAddrs, if_addrs_init, from_json}
use tunator.Server.Devices
use tunator.Server.Devices.{Event, init_message, handle, handle_all, server_init}
use tunator.Server.Sessions.{
  Settings, Sessions, Message, init, closed, started_device, handle_session, handle_sessions,
}
use tunator.Server.Sessions.Sound.{abstract, IsSound}
use tunator.Server.Sessions.Refines.{init_session-abstract, close_session-abstract}

module _ (ip : IpLibrary) (r : Ring) (json : JsonLibrary) where
  -- The data of an init raise no exception.
  abbrev pub IsReadable : Message json → Type 0
  IsReadable (init meets js c) =
      (b : Bool) × (a : IfAddrs ip) × (from_json ip json js (if_addrs_init ip) ≡ finished b a)
  IsReadable (closed c) = Unit

  module _ (as_commands : Text → IfAddrs ip → List SystemCmd) (settings : Settings) where
    -- The event with the outcome of the two calls in numbers.
    unfoldable pub numbered : Message json → Event
    numbered (closed c) = Devices.closed c
    numbered (init meets js c) = elim (from_json ip json js (if_addrs_init ip)) [
      | raised ↦ init_message false false c
      | finished b a ↦
          init_message b (started_device ip r json as_commands settings meets a).result c
    ]

    handle_session-abstract :
        (e : Message json) (s : Sessions ip r json)
        → IsReadable e
        → IsSound ip r json s
        → (s' : Sessions ip r json) × (handle_session ip r json as_commands settings e s ≡ some s')
          × (abstract ip r json s' ≡ handle (numbered e) (abstract ip r json s))
          × IsSound ip r json s'
    unfolding handle_session handle numbered
    handle_session-abstract (closed c) s t k = close_session-abstract ip r json c s k
    handle_session-abstract (init meets js c) s (b, a, e) k =
        let (s', came, same, k') =
          init_session-abstract ip r json as_commands settings meets js c s b a e k in
        (s', came, same ∙ rw (e, numbered) refl, k')

    -- From sessions in which the connections have different devices, each made before and with four
    -- joinable threads, whatever inits and closings arrive, of which no init's data raise an exception,
    -- the server handles them all without an exception, ends in such sessions, and its devices, as
    -- numbers, are those to which the server over numbers comes with the same events.
    pub handle_sessions-abstract :
        (es : List (Message json)) (s : Sessions ip r json)
        → All IsReadable es
        → IsSound ip r json s
        → (s' : Sessions ip r json) × (handle_sessions ip r json as_commands settings es s
            ≡ some s')
          × (abstract ip r json s' ≡ handle_all (map numbered es) (abstract ip r json s))
          × IsSound ip r json s'
    unfolding handle_sessions handle_all
    handle_sessions-abstract [] s h k = (s, refl, refl, k)
    handle_sessions-abstract (e ∷ es) s h k =
        let (s', came, same, k') = handle_session-abstract e s h.0 k in
        let (s'', came', same', k'') = handle_sessions-abstract es s' h.1 k' in
        (s'', rw (came, handle_sessions) came', same' ∙ ap (handle_all (map numbered es)) same, k'')
